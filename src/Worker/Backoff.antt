-- ===== src/Worker/Backoff.antt =====
-- The arithmetic of apps/worker/src/outbound-throttle.ts: retry delays and concurrency.
pub mod Bounds
mod Tests
use tiktok_outreach.Prelude.{
  ℕ, ◌+◌, ◌-◌, ◌*◌, ◌/◌, ◌^◌, min, max, String, Bool, ◌||◌, ◌&&◌, Option, none, some, ltb, leb,
  ◌==◌, if◌then◌else◌, or_else, some_and, str_eq,
}
use tiktok_outreach.Prelude.Int.{ℤ, pos, negsuc}

-- What a response says of the wait: nothing, a value that is not finite, or a number, here in
-- thousandths of a millisecond.
pub data RetryAfter : Type 0 where
  absent not_finite : RetryAfter
  thousandths : ℤ → RetryAfter

abbrev pub max_retry_after_ms : ℕ
max_retry_after_ms = 86400000

abbrev pub throttle_backoff_cap_ms : ℕ
throttle_backoff_cap_ms = 60000

abbrev pub transient_backoff_cap_ms : ℕ
transient_backoff_cap_ms = 30000

abbrev pub jitter_max_ms : ℕ
jitter_max_ms = 500

unfoldable pub bounded_retry_after : RetryAfter → Option ℕ
bounded_retry_after absent = none
bounded_retry_after not_finite = none
bounded_retry_after (thousandths (negsuc n)) = none
bounded_retry_after (thousandths (pos n)) = some (min (n / 1000) max_retry_after_ms)

-- The draw of `random()` is a number of millionths.
unfoldable pub jitter : ℕ → ℕ
jitter draw = min 999999 draw * (jitter_max_ms + 1) / 1000000

-- `retryAfterMs` has passed `boundedRetryAfter`; the difference stops at 0, as `Math.max` does.
unfoldable pub local_backoff : ℕ → ℕ → ℕ → ℕ → ℕ
unfolding jitter
local_backoff base cap failures draw = min cap (base * 2 ^ min 20 (failures - 1) + jitter draw)

unfoldable pub exponential_backoff_with_jitter : ℕ → ℕ → ℕ → RetryAfter → ℕ → ℕ
unfolding local_backoff bounded_retry_after
exponential_backoff_with_jitter base cap failures retry_after draw =
    max (local_backoff base cap failures draw) (or_else (bounded_retry_after retry_after) 0)

unfoldable pub decreased_concurrency : ℕ → ℕ
decreased_concurrency current = max 1 (max 1 current / 2)

pub record Ramp : Type 0 where
  pub effective_concurrency : ℕ
  pub healthy_success_count : ℕ

unfoldable pub increased_concurrency : ℕ → ℕ → ℕ → Ramp
increased_concurrency current technical_max healthy_success_count =
    let safe_current = max 1 (min current technical_max) in
    let next_count = healthy_success_count + 1 in
    if ltb safe_current technical_max && leb safe_current next_count
    then record { effective_concurrency = safe_current + 1; healthy_success_count = 0 }
    else record { effective_concurrency = safe_current; healthy_success_count = next_count }

-- isProviderThrottle; a numeric code is compared by its digits.
unfoldable pub is_provider_throttle : Option ℕ → Option String → Bool
is_provider_throttle http_status business_code =
    some_and http_status (λ s. s == 429) || str_eq (or_else business_code "") "36009002"
