-- ===== src/History/Lease.antt =====
-- A run frees the job that it has claimed.
use tiktok_outreach.Prelude.{
  ℕ, suc, ◌≡◌, refl, ◌⊎◌, inl, inr, Bool, true, false, ◌&&◌, Option, none, some, arith, is_some,
  Bool-cases, find, truthy, leb, ltb,
}
use tiktok_outreach.History.Rows.{
  SyncState, PassKind, SyncPhase, Failure, ApiAnswer, MessagePage, Job, Work, History, HistoryEvent,
  Settings, is_held_by, list_cursor,
}
use tiktok_outreach.History.Pages.{
  audit_if, import_messages, ensure_conversation, item_of, fetch_conversation_page,
  store_message_page, advance_head, continue_backfill, finish_backfill, advance_backfill,
  advance_incremental, advance_by, advance_completed_page, has_more, next_index,
}
use tiktok_outreach.History.Errors.{
  is_cursor_invalid, recover_cursor, back_off, fail_job, is_temporary_kind, handle_failure,
  handle_error,
}
use tiktok_outreach.History.Runs.{
  Answers, is_claimable_job, is_complete_job, is_backing_off, new_pass, claimed_job, on_answer,
  unless_thrown, is_open_work, read_messages, fetch_message_page, list_page, read_page,
  process_phase, process_claimed, settle_run, process_job, turn,
}

-- No lease, and an attempt to come, or an end that only the operator lifts.
abbrev pub IsFreed : History → Type 0
IsFreed h =
    (h.job.lease_owner ≡ none)
    × ((is_some h.job.next_attempt_at ≡ true) ⊎ (h.job.state ≡ SyncState.failed))

-- What the body of a run ends with: an error while it holds the lease, or a job that is free.
abbrev Ends : ℕ → Option Failure × History → Type 0
Ends owner (none, h) = IsFreed h
Ends owner (some f, h) = is_held_by owner h.job ≡ true

IsFreed-audit_if :
    (b : Bool) (e : HistoryEvent) (h : History) → IsFreed h → IsFreed (audit_if b e h)
IsFreed-audit_if true e h g = g
IsFreed-audit_if false e h g = g

held_audit :
    (owner : ℕ) (b : Bool) (e : HistoryEvent) (h : History)
    → is_held_by owner h.job ≡ true
    → is_held_by owner (audit_if b e h).job ≡ true
held_audit owner true e h g = g
held_audit owner false e h g = g

module _ (s : Settings) (a : Answers) (owner : ℕ) where
  on_answer-Ends {ℓ} :
      {A : Type ℓ} (h : History) (o : ApiAnswer A) (k : A → Option Failure × History)
      → is_held_by owner h.job ≡ true
      → ((x : A) → Ends owner (k x))
      → Ends owner (on_answer h o k)
  on_answer-Ends h (ApiAnswer.thrown f) k held rest = held
  on_answer-Ends h (ApiAnswer.answered x) k held rest = rest x

  unless_thrown-Ends :
      (h : History) (o : Option Failure) (t : History)
      → is_held_by owner h.job ≡ true
      → IsFreed t
      → Ends owner (unless_thrown h o t)
  unless_thrown-Ends h (some f) t held done = held
  unless_thrown-Ends h none t held done = done

  store_frees :
      (b : Bool) (w : Work) (page : MessagePage) (h : History)
      → is_held_by owner h.job ≡ true
      → IsFreed (store_message_page s a.answered_at owner b w page h)
  unfolding store_message_page
  store_frees b w page h held = rw held (
      IsFreed-audit_if (ltb 0 (import_messages w.conversation_id page.items h.messages).0)
        (HistoryEvent.history_messages_imported w.conversation_id
          (import_messages w.conversation_id page.items h.messages).0)
        _ (refl, inl refl))

  fetch_message_page-Ends :
      (w : Work) (h : History)
      → is_held_by owner h.job ≡ true
      → Ends owner (fetch_message_page s a owner w h)
  unfolding fetch_message_page read_messages ensure_conversation
  fetch_message_page-Ends w h held = on_answer-Ends h (a.creator_of (item_of w)) _ held (λ creator.
      let made = ensure_conversation a.synced_at creator (item_of w) h in
      on_answer-Ends made.1 (a.messages w.conversation_id (truthy w.message_page_token)) _ held
        (λ page.
          unless_thrown-Ends made.1 (a.not_rebuilt creator) _ held
            (store_frees made.0 w page made.1 held)))

  list_page-Ends :
      (h : History) → is_held_by owner h.job ≡ true → Ends owner (list_page s a owner h.job h)
  unfolding list_page fetch_conversation_page
  list_page-Ends h held =
      on_answer-Ends h (a.conversations (truthy (list_cursor h.job))) _ held
        (λ page. rw held (refl, inl refl))

  continue_backfill_frees :
      (h : History)
      → is_held_by owner h.job ≡ true
      → IsFreed (continue_backfill s a.answered_at h.job owner h)
  unfolding continue_backfill
  continue_backfill_frees h held =
      elim (Bool-cases (leb s.head_every_backfill_pages (suc h.job.backfill_pages_since_head))) [
        | inl due ↦ rw held (
            rw due (
              IsFreed-audit_if _
                (HistoryEvent.history_provider_page_completed (suc h.job.pages_processed)) _
                (refl, inl refl)))
        | inr early ↦ rw held (
            rw early (
              IsFreed-audit_if _
                (HistoryEvent.history_provider_page_completed (suc h.job.pages_processed)) _
                (refl, inl refl)))
      ]

  advance_backfill-Ends :
      (h : History)
      → is_held_by owner h.job ≡ true
      → Ends owner (advance_backfill s a.answered_at h.job owner h)
  unfolding advance_backfill finish_backfill
  advance_backfill-Ends h held = elim (Bool-cases (has_more s a.answered_at h.job owner)) [
    | inl more ↦ elim (Bool-cases (is_some (truthy h.job.pending_next_page_token))) [
      | inl token ↦ rw more (rw token (continue_backfill_frees h held))
      | inr missing ↦ rw more (rw missing held)
    ]
    | inr last ↦ rw last (rw held (refl, inl refl))
  ]

  advance_by-Ends :
      (k : PassKind) (h : History)
      → is_held_by owner h.job ≡ true
      → Ends owner (advance_by s a.answered_at h.job owner k h)
  unfolding advance_by advance_head advance_incremental
  advance_by-Ends PassKind.head h held = rw held (refl, inl refl)
  advance_by-Ends PassKind.backfill h held = advance_backfill-Ends h held
  advance_by-Ends PassKind.incremental h held =
      elim (Bool-cases (
        has_more s a.answered_at h.job owner
        && is_some (truthy h.job.pending_next_page_token)
        && ltb (next_index s a.answered_at h.job owner) s.incremental_pages)) [
          | inl on ↦ rw on (rw held (refl, inl refl))
          | inr over ↦ rw over (rw held (refl, inl refl))
        ]

  process_phase-Ends :
      (p : SyncPhase) (h : History)
      → is_held_by owner h.job ≡ true
      → Ends owner (process_phase s a owner h.job p h)
  unfolding process_phase read_page advance_completed_page
  process_phase-Ends SyncPhase.list h held = list_page-Ends h held
  process_phase-Ends SyncPhase.messages h held =
      by_work (find (is_open_work h.job.page_sequence) h.works)
    where
      by_work : (o : Option Work) → Ends owner (read_page s a owner h.job o h)
      by_work (some w) = fetch_message_page-Ends w h held
      by_work none = advance_by-Ends h.job.pass_kind h held

  handle_failure_frees : (now : ℕ) (f : Failure) (h : History) → IsFreed (handle_failure now f h)
  unfolding handle_failure recover_cursor back_off fail_job
  handle_failure_frees now (Failure.api e) h = elim (Bool-cases (is_cursor_invalid h.job e)) [
    | inl invalid ↦ rw invalid (refl, inl refl)
    | inr valid ↦ elim (Bool-cases (is_temporary_kind e.kind)) [
      | inl t ↦ rw valid (rw t (refl, inl refl))
      | inr t ↦ rw valid (rw t (refl, inr refl))
    ]
  ]
  handle_failure_frees now Failure.other h = (refl, inr refl)

  settle_run_frees :
      (r : Option Failure × History) → Ends owner r → IsFreed (settle_run s a owner r)
  unfolding settle_run handle_error
  settle_run_frees (none, h) g = g
  settle_run_frees (some f, h) g = rw g (handle_failure_frees a.failed_at f h)

  process_job_frees :
      (o : Option Failure) (h : History)
      → is_held_by owner h.job ≡ true
      → IsFreed (process_job s a owner o h)
  unfolding process_job process_claimed
  process_job_frees (some f) h held = settle_run_frees (some f, h) held
  process_job_frees none h held = rw held (
      settle_run_frees (process_phase s a owner h.job h.job.phase h)
        (process_phase-Ends h.job.phase h held))

  claimed_held : (c j : Job) → is_held_by owner (claimed_job s a.claimed_at owner c j) ≡ true
  claimed_held c j = new_pass_held (is_complete_job c.state) _ (ground arith)
    where
      new_pass_held :
          (b : Bool) (j : Job) → is_held_by owner j ≡ true → is_held_by owner (new_pass b j) ≡ true
      new_pass_held true j h = h
      new_pass_held false j h = h

  -- A run that claims a job frees it, whatever the provider answers and whatever fails: the lease
  -- ends, and another attempt is scheduled, unless the job has failed.
  pub turn_frees :
      (c : Job) (h : History)
      → is_claimable_job a.claimed_at h.job ≡ true
      → IsFreed (turn s a owner c h)
  unfolding turn
  turn_frees c h e = rw e (
      process_job_frees a.no_adapter _ (
        held_audit owner (is_backing_off c.state) HistoryEvent.history_backoff_exited
          (record h { job = claimed_job s a.claimed_at owner c h.job }) (claimed_held c h.job)))
