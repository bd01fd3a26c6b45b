-- ===== src/History/Turns.antt =====
-- A run keeps IsSound of the shop whose job it has claimed.
use tiktok_outreach.Prelude.{
  ℕ, ◌+◌, or_else, ◌≡◌, refl, subst, inl, inr, Bool, true, false, Option, none, some, arith, truthy,
  find, All, Bool-cases,
}
use tiktok_outreach.Prelude.Tables.{find_passed}
use tiktok_outreach.History.Rows.{
  SyncState, SyncPhase, Failure, ApiAnswer, Work, History, Settings, HistoryEvent, is_held_by,
  list_cursor,
}
use tiktok_outreach.History.Pages.{ensure_conversation, item_of}
use tiktok_outreach.History.Runs.{
  Answers, is_claimable_job, is_complete_job, new_pass, is_open_work, read_messages,
  fetch_message_page, list_page, on_answer, unless_thrown, read_page, process_phase,
  process_claimed, settle_run, process_job, turn,
}
use tiktok_outreach.History.Sound.{Placed, SoundState, SoundPhase, IsSound, HasMinima, Placed-next}
use tiktok_outreach.History.Steps.{
  IsSound-audit_if, fetch_conversation_page-IsSound, ensure_conversation-IsSound,
  store_message_page-IsSound,
}
use tiktok_outreach.History.Advance.{advance_completed_page-IsSound}
use tiktok_outreach.History.Failing.{handle_error-IsSound}

complete_state : (x : SyncState) → is_complete_job x ≡ true → x ≡ SyncState.complete
complete_state x h = ground arith

module _ {s : Settings} {id : ℕ} where
  on_answer-IsSound {ℓ} :
      {A : Type ℓ} (h : History) (o : ApiAnswer A) (k : A → Option Failure × History)
      → IsSound s id h
      → ((x : A) → IsSound s id (k x).1)
      → IsSound s id (on_answer h o k).1
  on_answer-IsSound h (ApiAnswer.thrown f) k g rest = g
  on_answer-IsSound h (ApiAnswer.answered x) k g rest = rest x

  unless_thrown-IsSound :
      (o : Option Failure) (h t : History)
      → IsSound s id h
      → IsSound s id t
      → IsSound s id (unless_thrown h o t).1
  unless_thrown-IsSound (some f) h t g done = g
  unless_thrown-IsSound none h t g done = done

module _ (s : Settings) (a : Answers) (owner id : ℕ) where
  read_messages-IsSound :
      (new_conversation : Bool) (creator : ℕ) (w : Work) (h : History)
      → is_held_by owner h.job ≡ true
      → w.page_sequence ≡ h.job.page_sequence
      → h.job.phase ≡ SyncPhase.messages
      → IsSound s id h
      → IsSound s id (read_messages s a owner new_conversation creator w h).1
  unfolding read_messages
  read_messages-IsSound new_conversation creator w h held here reading g =
      on_answer-IsSound h (a.messages w.conversation_id (truthy w.message_page_token)) _ g (λ page.
        unless_thrown-IsSound (a.not_rebuilt creator) h _ g (
          store_message_page-IsSound owner a.answered_at h new_conversation w page held here reading
            g))

  fetch_message_page-IsSound :
      (w : Work) (h : History)
      → is_held_by owner h.job ≡ true
      → w.page_sequence ≡ h.job.page_sequence
      → h.job.phase ≡ SyncPhase.messages
      → IsSound s id h
      → IsSound s id (fetch_message_page s a owner w h).1
  unfolding fetch_message_page ensure_conversation
  fetch_message_page-IsSound w h held here reading g =
      on_answer-IsSound h (a.creator_of (item_of w)) _ g (λ creator.
        let made = ensure_conversation a.synced_at creator (item_of w) h in
        read_messages-IsSound made.0 creator w made.1 held here reading
          (ensure_conversation-IsSound owner a.synced_at h creator (item_of w) g))

  list_page-IsSound :
      (h : History)
      → is_held_by owner h.job ≡ true
      → IsSound s id h
      → IsSound s id (list_page s a owner h.job h).1
  unfolding list_page
  list_page-IsSound h held g =
      on_answer-IsSound h (a.conversations (truthy (list_cursor h.job))) _ g
        (λ page. fetch_conversation_page-IsSound owner a.answered_at h page held g)

  read_page-IsSound :
      (o : Option Work) (h : History)
      → HasMinima s
      → is_held_by owner h.job ≡ true
      → h.job.phase ≡ SyncPhase.messages
      → find (is_open_work h.job.page_sequence) h.works ≡ o
      → IsSound s id h
      → IsSound s id (read_page s a owner h.job o h).1
  unfolding read_page
  read_page-IsSound (some w) h configured held reading found g =
      fetch_message_page-IsSound w h held
        (open_page h.job.page_sequence w
          (find_passed (is_open_work h.job.page_sequence) h.works w found))
        reading g
    where
      open_page : (n : ℕ) (w : Work) → is_open_work n w ≡ true → w.page_sequence ≡ n
      open_page n w e = ground arith
  read_page-IsSound none h configured held reading found g =
      advance_completed_page-IsSound s id owner a.answered_at h configured held
        (Placed-next h.job.page_sequence h.job.phase SyncPhase.list h.works found g.placed) g

  process_phase-IsSound :
      (p : SyncPhase) (h : History)
      → HasMinima s
      → is_held_by owner h.job ≡ true
      → h.job.phase ≡ p
      → IsSound s id h
      → IsSound s id (process_phase s a owner h.job p h).1
  unfolding process_phase
  process_phase-IsSound SyncPhase.list h configured held at g = list_page-IsSound h held g
  process_phase-IsSound SyncPhase.messages h configured held at g =
      read_page-IsSound (find (is_open_work h.job.page_sequence) h.works) h configured held at refl
        g

  process_claimed-IsSound :
      (h : History) → HasMinima s → IsSound s id h → IsSound s id (process_claimed s a owner h).1
  unfolding process_claimed
  process_claimed-IsSound h configured g = elim (Bool-cases (is_held_by owner h.job)) [
    | inl held ↦ rw held (process_phase-IsSound h.job.phase h configured held refl g)
    | inr lost ↦ rw lost g
  ]

  settle_run-IsSound :
      (r : Option Failure × History) → IsSound s id r.1 → IsSound s id (settle_run s a owner r)
  unfolding settle_run
  settle_run-IsSound (none, h) g = g
  settle_run-IsSound (some f, h) g = handle_error-IsSound a.failed_at h owner f g

  process_job-IsSound :
      (o : Option Failure) (h : History)
      → HasMinima s
      → IsSound s id h
      → IsSound s id (process_job s a owner o h)
  unfolding process_job
  process_job-IsSound none h configured g =
      settle_run-IsSound (process_claimed s a owner h) (process_claimed-IsSound h configured g)
  process_job-IsSound (some f) h configured g = settle_run-IsSound (some f, h) g

  claimed-IsSound :
      (b : Bool) (h : History)
      → HasMinima s
      → is_complete_job h.job.state ≡ b
      → IsSound s id h
      → IsSound s id (record h {
        job = new_pass b (record h.job {
          state = SyncState.running;
          lease_owner = some owner;
          lease_expires_at = some (a.claimed_at + s.lease_ms);
          next_attempt_at = none;
          started_at = some (or_else h.job.started_at a.claimed_at);
        });
      })
  claimed-IsSound false h configured e g = record {
    own = g.own;
    placed = g.placed;
    pass = g.pass;
    index = g.index;
    state = tt;
    phase = g.phase;
    mode = g.mode;
  }
  claimed-IsSound true h configured e g =
      let (unowned, closed, incremental, done) =
        subst (λ x. SoundState x h.job.lease_owner h.job.phase h.job.mode h.job.completed_at)
          (complete_state h.job.state e) g.state in
      record {
        own = g.own;
        placed = subst (λ p. All (Placed h.job.page_sequence p) h.works) closed g.placed;
        pass = incremental;
        index = configured.pages;
        state = tt;
        phase =
            subst (λ p. SoundPhase p h.job.pending_has_more h.job.pending_next_page_token) closed
              g.phase;
        mode = g.mode;
      }

  pub turn-IsSound :
      (h : History) → HasMinima s → IsSound s id h → IsSound s id (turn s a owner h.job h)
  unfolding turn
  turn-IsSound h configured g = elim (Bool-cases (is_claimable_job a.claimed_at h.job)) [
    | inl e ↦ rw e (
        process_job-IsSound a.no_adapter _ configured (
          IsSound-audit_if _ HistoryEvent.history_backoff_exited _
            (claimed-IsSound (is_complete_job h.job.state) h configured refl g)))
    | inr e ↦ rw e g
  ]
