-- ===== src/History/Failing.antt =====
-- handleError keeps IsSound.
use tiktok_outreach.Prelude.{
  ℕ, suc, ◌≡◌, refl, sym, subst, inl, inr, true, not, none, arith, ◌==◌, is_some, All-imp,
  All-select_passed, Bool-cases, truthy,
}
use tiktok_outreach.History.Rows.{
  PassKind, SyncPhase, ApiError, Failure, Job, Work, History, Settings, is_held_by, list_cursor,
  cursor_of,
}
use tiktok_outreach.History.Errors.{
  is_cursor_invalid, first_pass, recover_cursor, back_off, fail_job, is_temporary_kind,
  handle_failure, handle_error,
}
use tiktok_outreach.History.Sound.{Placed, SoundPass, IsSound}

not_here :
    (n : ℕ) (p : SyncPhase) (w : Work)
    → Placed n p w
    → not (w.page_sequence == n) ≡ true
    → Placed (suc n) SyncPhase.list w
not_here n p w (inl (lt, e)) h = inl (omega arith, e)
not_here n p w (inr (e, r)) h = ground arith

-- No head pass has a cursor that may be invalid.
recovered_pass :
    (s : Settings) (k : PassKind) (j : Job)
    → SoundPass s k j.mode j.backfill_pages_since_head j.incremental_page_token
    → is_some (truthy (cursor_of k j)) ≡ true
    → SoundPass s (first_pass j.mode) j.mode j.backfill_pages_since_head none
recovered_pass s PassKind.backfill j g h =
    subst (λ m. SoundPass s (first_pass m) m j.backfill_pages_since_head none) (sym g.0) (refl, g.1)
recovered_pass s PassKind.head j g h =
    absurd (ground (arith, subst (λ t. is_some (truthy t) ≡ true) g.1 h))
recovered_pass s PassKind.incremental j g h =
    subst (λ m. SoundPass s (first_pass m) m j.backfill_pages_since_head none) (sym g) refl

invalid-cursor :
    (j : Job) (e : ApiError)
    → is_cursor_invalid j e ≡ true
    → is_some (truthy (list_cursor j)) ≡ true
invalid-cursor j e h = ground arith

module _ {s : Settings} {id : ℕ} (now : ℕ) (h : History) where
  recover_cursor-IsSound :
      (e : ApiError)
      → is_cursor_invalid h.job e ≡ true
      → IsSound s id h
      → IsSound s id (recover_cursor now e h)
  unfolding recover_cursor
  recover_cursor-IsSound e invalid g = record {
    own = g.own;
    placed =
        All-imp _ (Placed (suc h.job.page_sequence) SyncPhase.list)
          (λ w q. not_here h.job.page_sequence h.job.phase w q.0 q.1) _
          (All-select_passed (Placed h.job.page_sequence h.job.phase)
            (λ w. not (w.page_sequence == h.job.page_sequence)) h.works g.placed);
    pass = recovered_pass s h.job.pass_kind h.job g.pass (invalid-cursor h.job e invalid);
    index = g.index;
    state = refl;
    phase = (refl, refl);
    mode = g.mode;
  }

  back_off-IsSound : (e : ApiError) → IsSound s id h → IsSound s id (back_off now e h)
  unfolding back_off
  back_off-IsSound e g = record {
    own = g.own;
    placed = g.placed;
    pass = g.pass;
    index = g.index;
    state = refl;
    phase = g.phase;
    mode = g.mode;
  }

  fail_job-IsSound : (f : Failure) → IsSound s id h → IsSound s id (fail_job f h)
  unfolding fail_job
  fail_job-IsSound f g = record {
    own = g.own;
    placed = g.placed;
    pass = g.pass;
    index = g.index;
    state = refl;
    phase = g.phase;
    mode = g.mode;
  }

  handle_failure-IsSound : (f : Failure) → IsSound s id h → IsSound s id (handle_failure now f h)
  unfolding handle_failure
  handle_failure-IsSound (Failure.api e) g = elim (Bool-cases (is_cursor_invalid h.job e)) [
    | inl invalid ↦ rw invalid (recover_cursor-IsSound e invalid g)
    | inr valid ↦ elim (Bool-cases (is_temporary_kind e.kind)) [
      | inl t ↦ rw valid (rw t (back_off-IsSound e g))
      | inr t ↦ rw valid (rw t (fail_job-IsSound (Failure.api e) g))
    ]
  ]
  handle_failure-IsSound Failure.other g = fail_job-IsSound Failure.other g

  pub handle_error-IsSound :
      (owner : ℕ) (f : Failure) → IsSound s id h → IsSound s id (handle_error now owner f h)
  unfolding handle_error
  handle_error-IsSound owner f g = elim (Bool-cases (is_held_by owner h.job)) [
    | inl held ↦ rw held (handle_failure-IsSound f g)
    | inr lost ↦ rw lost g
  ]
