-- ===== src/Worker/Backoff/Bounds.antt =====
-- How long a retry waits, and how concurrency falls and grows.
use native.Mathlib.Nat.{pow-le-pow_right}
use tiktok_outreach.Prelude.{
  ℕ, ◌+◌, ◌-◌, ◌*◌, ◌/◌, ◌^◌, ◌≤◌, ◌<◌, min, max, ◌≡◌, ◌⊎◌, inl, inr, arith, or_else, leb, leb→le,
  Bool-cases,
}
use tiktok_outreach.Prelude.Int.{pos, negsuc}
use tiktok_outreach.Worker.Backoff.{
  RetryAfter, max_retry_after_ms, bounded_retry_after, jitter, jitter_max_ms, local_backoff,
  exponential_backoff_with_jitter, decreased_concurrency, increased_concurrency,
}

pub bounded_retry_after-le :
    (r : RetryAfter) → or_else (bounded_retry_after r) 0 ≤ max_retry_after_ms
unfolding bounded_retry_after
bounded_retry_after-le r = ground arith

jitter-le : (draw : ℕ) → jitter draw ≤ jitter_max_ms
unfolding jitter
jitter-le draw = omega arith

pow_mono : (n m : ℕ) → n ≤ m → 2 ^ n ≤ 2 ^ m
pow_mono n m h = pow-le-pow_right {n = 2} (omega arith) h

-- The bounds of a delay by what the response says of the wait: `share` is the exponential share.
abbrev pub WaitBounds : ℕ → ℕ → RetryAfter → Type 0
WaitBounds share delay (RetryAfter.thousandths (pos n)) =
    n / 1000 ≤ 86400000 × max share (n / 1000) ≤ delay × delay ≤ max share (n / 1000) + 500
    ⊎ (86400000 < n / 1000 × (delay ≡ 86400000))
WaitBounds share delay _ = share ≤ delay × delay ≤ share + 500

-- A retry waits at least its exponential share, 2^min(20, n - 1) times the base after n failures in a
-- row, up to the cap; where the response carries a Retry-After of at most 24 hours, at least this time
-- too; and, beyond the larger of these, at most the 500 ms of jitter. With a longer Retry-After it
-- waits 24 hours. The cap is at most 24 hours.
pub backoff_bounds :
    (base cap failures : ℕ) (r : RetryAfter) (draw : ℕ)
    → cap ≤ 86400000
    → WaitBounds
        (min cap (base * 2 ^ min 20 (failures - 1)))
        (exponential_backoff_with_jitter base cap failures r draw)
        r
unfolding exponential_backoff_with_jitter local_backoff bounded_retry_after
backoff_bounds base cap failures RetryAfter.absent draw h = omega (arith, jitter-le draw)
backoff_bounds base cap failures RetryAfter.not_finite draw h = omega (arith, jitter-le draw)
backoff_bounds base cap failures (RetryAfter.thousandths (negsuc n)) draw h =
    omega (arith, jitter-le draw)
backoff_bounds base cap failures (RetryAfter.thousandths (pos n)) draw h =
    elim (Bool-cases (leb (n / 1000) 86400000)) [
      | inl e ↦
          let short : n / 1000 ≤ 86400000 = leb→le (n / 1000) 86400000 e in
          inl (omega (arith, jitter-le draw))
      | inr e ↦ let long : 86400000 < n / 1000 = ground arith in inr (omega (arith, jitter-le draw))
    ]

-- A retry waits at least its exponential share and the bounded Retry-After.
pub backoff_least :
    (base cap failures : ℕ) (r : RetryAfter) (draw : ℕ)
    → cap ≤ 86400000
    → (min cap (base * 2 ^ min 20 (failures - 1))
        ≤ exponential_backoff_with_jitter base cap failures r draw)
      × (or_else (bounded_retry_after r) 0
          ≤ exponential_backoff_with_jitter base cap failures r draw)
unfolding exponential_backoff_with_jitter local_backoff
backoff_least base cap failures r draw h = (
  omega (arith, jitter-le draw, bounded_retry_after-le r),
  omega (arith, jitter-le draw, bounded_retry_after-le r),
)

-- More failures in a row never make the same retry wait less.
pub backoff_mono :
    (base cap n m : ℕ) (r : RetryAfter) (draw : ℕ)
    → n ≤ m
    → exponential_backoff_with_jitter base cap n r draw
      ≤ exponential_backoff_with_jitter base cap m r draw
unfolding exponential_backoff_with_jitter local_backoff
backoff_mono base cap n m r draw h =
    let p : 2 ^ min 20 (n - 1) ≤ 2 ^ min 20 (m - 1) = pow_mono _ _ (omega arith) in
    let q : base * 2 ^ min 20 (n - 1) ≤ base * 2 ^ min 20 (m - 1) = grind arith in omega arith

-- Concurrency is halved on a throttle and never falls below one; on a success it stays within the
-- limit, never falls, and grows by at most one, and then only when as many successes as there are
-- permits have been counted.
pub concurrency_changes :
    (current limit count : ℕ)
    → 1 ≤ current
    → current ≤ limit
    → let d = decreased_concurrency current in
      let u = increased_concurrency current limit count in
      (1 ≤ d)
      × (d ≤ current)
      × (2 * d ≤ max 2 current)
      × (current ≤ u.effective_concurrency)
      × (u.effective_concurrency ≤ limit)
      × ((u.effective_concurrency ≡ current) × (u.healthy_success_count ≡ count + 1)
          ⊎ (u.effective_concurrency ≡ current + 1)
            × (u.healthy_success_count ≡ 0)
            × (current ≤ count + 1))
unfolding decreased_concurrency increased_concurrency
concurrency_changes current limit count h k = ground arith
