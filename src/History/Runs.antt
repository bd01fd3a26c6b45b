-- ===== src/History/Runs.antt =====
-- processNext and processClaimed (apps/api/src/history/history-processor.ts), as one run of a worker
-- that nothing interrupts.
use tiktok_outreach.Prelude.{
  ℕ, ◌+◌, String, Bool, true, false, not, ◌&&◌, List, Option, none, some, ◌==◌, leb, if◌then◌else◌,
  or_else, truthy, head?, select, find,
}
use tiktok_outreach.Prelude.Sorting.{sort}
use tiktok_outreach.Prelude.Tables.{update_where}
use tiktok_outreach.History.Rows.{
  SyncState, SyncMode, PassKind, SyncPhase, Failure, ApiAnswer, Item, ConversationPage, MessagePage,
  Job, Work, HistoryEvent, History, Settings, is_complete_work, is_held_by, list_cursor,
}
use tiktok_outreach.History.Pages.{
  fetch_conversation_page, item_of, ensure_conversation, store_message_page, advance_completed_page,
  audit_if,
}
use tiktok_outreach.History.Errors.{handle_error}

-- What a run is given: the adapter's answers to a cursor, the creator that the resolver finds, whether
-- the rebuild of the contact state throws, and its clock.
pub record Answers : Type 0 where
  pub no_adapter : Option Failure
  pub conversations : Option String → ApiAnswer ConversationPage
  pub messages : ℕ → Option String → ApiAnswer MessagePage
  pub creator_of : Item → ApiAnswer ℕ
  pub not_rebuilt : ℕ → Option Failure
  pub claimed_at : ℕ
  pub synced_at : ℕ
  pub answered_at : ℕ
  pub failed_at : ℕ

abbrev pub is_runnable : SyncState → Bool
is_runnable SyncState.paused = false
is_runnable SyncState.failed = false
is_runnable _ = true

abbrev pub is_attempt_due : ℕ → Option ℕ → Bool
is_attempt_due now none = true
is_attempt_due now (some t) = leb t now

abbrev pub is_free : ℕ → Job → Bool
is_free now j = elim j.lease_owner [
  | none ↦ true
  | some o ↦ elim j.lease_expires_at [ none ↦ false | some t ↦ leb t now ]
]

-- The `where` of the search and of the claim.
abbrev pub is_claimable_job : ℕ → Job → Bool
is_claimable_job now j = is_runnable j.state && is_free now j

abbrev pub is_candidate : ℕ → Job → Bool
is_candidate now j = is_claimable_job now j && is_attempt_due now j.next_attempt_at

-- A null comes last in the order of the database.
abbrev pub attempt_le : Option ℕ → Option ℕ → ℕ → ℕ → Bool
attempt_le none none a b = leb a b
attempt_le none (some t) a b = false
attempt_le (some s) none a b = true
attempt_le (some s) (some t) a b = if s == t then leb a b else leb s t

abbrev pub job_before : History → History → Bool
job_before g h =
    attempt_le g.job.next_attempt_at h.job.next_attempt_at g.job.created_at h.job.created_at

unfoldable pub next_candidate : ℕ → List History → Option History
unfolding sort
next_candidate now hs = head? (sort job_before (select (λ h. is_candidate now h.job) hs))

abbrev pub is_complete_job : SyncState → Bool
is_complete_job SyncState.complete = true
is_complete_job _ = false

abbrev pub is_backing_off : SyncState → Bool
is_backing_off SyncState.backing_off = true
is_backing_off _ = false

abbrev pub is_incremental : SyncMode → Bool
is_incremental SyncMode.incremental = true
is_incremental _ = false

-- A pass over the newest pages begins anew once the job was complete.
abbrev pub new_pass : Bool → Job → Job
new_pass true j = record j {
  pass_kind = PassKind.incremental;
  phase = SyncPhase.list;
  incremental_page_token = none;
  incremental_page_index = 0;
}
new_pass false j = j

abbrev pub claimed_job : Settings → ℕ → ℕ → Job → Job → Job
claimed_job settings now owner candidate j = new_pass (is_complete_job candidate.state) (record j {
  state = SyncState.running;
  lease_owner = some owner;
  lease_expires_at = some (now + settings.lease_ms);
  next_attempt_at = none;
  started_at = some (or_else candidate.started_at now);
})

abbrev pub is_open_work : ℕ → Work → Bool
is_open_work sequence w = w.page_sequence == sequence && not (is_complete_work w)

-- What goes on with an answer; an error leaves the rows as they are.
abbrev pub on_answer {ℓ} :
    {A : Type ℓ} → History → ApiAnswer A → (A → Option Failure × History) → Option Failure × History
on_answer h (ApiAnswer.thrown f) k = (some f, h)
on_answer h (ApiAnswer.answered x) k = k x

-- A transaction that throws is rolled back.
abbrev pub unless_thrown : History → Option Failure → History → Option Failure × History
unless_thrown h (some f) t = (some f, h)
unless_thrown h none t = (none, t)

module _ (settings : Settings) (a : Answers) (owner : ℕ) where
  -- The end of fetchMessagePage, from the messages on.
  unfoldable pub read_messages : Bool → ℕ → Work → History → Option Failure × History
  unfolding store_message_page
  read_messages new_conversation creator w h =
      on_answer h (a.messages w.conversation_id (truthy w.message_page_token)) (λ page.
        unless_thrown h (a.not_rebuilt creator)
          (store_message_page settings a.answered_at owner new_conversation w page h))

  unfoldable pub fetch_message_page : Work → History → Option Failure × History
  unfolding read_messages ensure_conversation
  fetch_message_page w h = on_answer h (a.creator_of (item_of w)) (λ creator.
      let (imported, t) = ensure_conversation a.synced_at creator (item_of w) h in
      read_messages imported creator w t)

  unfoldable pub list_page : Job → History → Option Failure × History
  unfolding fetch_conversation_page
  list_page snapshot h =
      on_answer h (a.conversations (truthy (list_cursor snapshot)))
        (λ page. (none, fetch_conversation_page settings a.answered_at snapshot owner page h))

  unfoldable pub read_page : Job → Option Work → History → Option Failure × History
  unfolding fetch_message_page advance_completed_page
  read_page snapshot (some w) h = fetch_message_page w h
  read_page snapshot none h = advance_completed_page settings a.answered_at snapshot owner h

  unfoldable pub process_phase : Job → SyncPhase → History → Option Failure × History
  unfolding list_page read_page
  process_phase snapshot SyncPhase.list h = list_page snapshot h
  process_phase snapshot SyncPhase.messages h =
      read_page snapshot (find (is_open_work snapshot.page_sequence) h.works) h

  unfoldable pub process_claimed : History → Option Failure × History
  unfolding process_phase
  process_claimed h =
      if is_held_by owner h.job then process_phase h.job h.job.phase h else (some Failure.other, h)

  -- The error of the run, if it throws, goes to handleError.
  unfoldable pub settle_run : Option Failure × History → History
  unfolding handle_error
  settle_run (none, h) = h
  settle_run (some f, h) = handle_error a.failed_at owner f h

  unfoldable pub process_job : Option Failure → History → History
  unfolding settle_run process_claimed
  process_job none h = settle_run (process_claimed h)
  process_job (some f) h = settle_run (some f, h)

  -- From the claim on, for a job that was found.
  unfoldable pub turn : Job → History → History
  unfolding process_job
  turn candidate h =
      if is_claimable_job a.claimed_at h.job
      then process_job a.no_adapter (
          audit_if (is_backing_off candidate.state) HistoryEvent.history_backoff_exited
            (record h { job = claimed_job settings a.claimed_at owner candidate h.job }))
      else h

  unfoldable pub process_found : Option History → List History → Bool × List History
  unfolding turn
  process_found none hs = (false, hs)
  process_found (some c) hs =
      if is_complete_job c.job.state && not (is_incremental c.job.mode)
      then (false, hs)
      else (true, update_where (λ h. h.job.id == c.job.id) (turn c.job) hs)

  unfoldable pub process_next : List History → Bool × List History
  unfolding process_found next_candidate
  process_next hs = process_found (next_candidate a.claimed_at hs) hs
