-- ===== src/History/Delays.antt =====
-- How long a job backs off.
use tiktok_outreach.Prelude.{
  ℕ, ◌+◌, ◌-◌, ◌^◌, ◌≤◌, ◌≡◌, refl, min, max, true, false, Option, none, some, arith, or_else,
}
use native.Mathlib.Nat.{pow-le-pow_right}
use tiktok_outreach.History.Rows.{
  SyncState, ApiErrorKind, ApiError, Failure, Job, History, is_held_by,
}
use tiktok_outreach.History.Errors.{
  is_temporary_kind, is_provider_kind, is_cursor_invalid, failures_after, exponential_ms,
  next_attempt, back_off, handle_failure, handle_error,
}

power_mono : (n m : ℕ) → n ≤ m → 2 ^ n ≤ 2 ^ m
power_mono n m h = pow-le-pow_right {n = 2} (omega arith) h

exponential_bounds : (n : ℕ) → 30000 ≤ exponential_ms n × exponential_ms n ≤ 1800000
exponential_bounds n =
    let p : 2 ^ 0 ≤ 2 ^ min (n - 1) 20 = power_mono 0 (min (n - 1) 20) (omega arith) in
    (omega arith, omega arith)

-- The least and the greatest delay after an answer that names no instant.
abbrev pub DelayBounds : ℕ → Option ℕ → Option ℕ → ℕ → Type 0
DelayBounds now none retry_after next =
    now + max (or_else retry_after 0) 30000 ≤ next
    × next ≤ now + max (or_else retry_after 0) 1800000
DelayBounds now (some t) retry_after next = next ≡ t

next_attempt-DelayBounds :
    (now : ℕ) (permitted retry_after : Option ℕ) (count : ℕ)
    → DelayBounds now permitted retry_after
        (or_else permitted (now + max (or_else retry_after 0) (exponential_ms count)))
next_attempt-DelayBounds now none retry_after count =
    let (low, high) = exponential_bounds count in (omega arith, omega arith)
next_attempt-DelayBounds now (some t) retry_after count = refl

-- How a job waits.
pub record BacksOff (now : ℕ) (e : ApiError) (h t : History) : Type 0 where
  pub next : ℕ
  pub state : t.job.state ≡ SyncState.backing_off
  pub freed : t.job.lease_owner ≡ none
  pub scheduled : t.job.next_attempt_at ≡ some next
  pub bounded : DelayBounds now e.next_permitted_at e.retry_after_ms next
  pub resumed_at : (t.job.phase ≡ h.job.phase) × (t.job.page_sequence ≡ h.job.page_sequence)
  pub works : t.works ≡ h.works

temporary_not_provider :
    (k : ApiErrorKind) → is_temporary_kind k ≡ true → is_provider_kind k ≡ false
temporary_not_provider ApiErrorKind.rate_limit h = refl
temporary_not_provider ApiErrorKind.temporary h = refl
temporary_not_provider k h = ground arith

temporary_valid :
    (j : Job) (e : ApiError) → is_temporary_kind e.kind ≡ true → is_cursor_invalid j e ≡ false
temporary_valid j e h = ground (arith, temporary_not_provider e.kind h)

-- After a throttle or a temporary failure the job of the lease's holder waits: to the instant that
-- the error names, or else for the Retry-After and for 30 seconds at least, and never beyond the
-- longer of Retry-After and 30 minutes. It keeps its page and the works of it.
pub handle_error-BacksOff :
    (now owner : ℕ) (e : ApiError) (h : History)
    → is_held_by owner h.job ≡ true
    → is_temporary_kind e.kind ≡ true
    → BacksOff now e h (handle_error now owner (Failure.api e) h)
unfolding handle_error handle_failure back_off
handle_error-BacksOff now owner e h held temporary = rw held (
    rw (temporary_valid h.job e temporary) (
      rw temporary (record {
        next = next_attempt now e h.job;
        state = refl;
        freed = refl;
        scheduled = refl;
        bounded =
            next_attempt-DelayBounds now e.next_permitted_at e.retry_after_ms
              (failures_after e h.job);
        resumed_at = (refl, refl);
        works = refl;
      })))
