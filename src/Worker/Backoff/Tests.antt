-- ===== src/Worker/Backoff/Tests.antt =====
-- Retry delays and concurrency at concrete values.
use tiktok_outreach.Prelude.{◌*◌, ◌^◌, ◌-◌, min, ◌≡◌, refl, none, some, arith, true}
use tiktok_outreach.Prelude.Int.{pos}
use tiktok_outreach.Worker.Backoff.{
  absent, thousandths, exponential_backoff_with_jitter, is_provider_throttle,
}
use tiktok_outreach.Worker.Backoff.Bounds.{WaitBounds, backoff_bounds}

-- The third failure in a row, with half of the jitter: 4 seconds and 250 ms.
third_failure : exponential_backoff_with_jitter 1000 60000 3 absent 500000 ≡ 4250
unfolding exponential_backoff_with_jitter
third_failure = refl

-- A wait of 90 seconds that the provider asks for is longer than the cap.
asked_for : exponential_backoff_with_jitter 1000 60000 3 (thousandths (pos 90000000)) 0 ≡ 90000
unfolding exponential_backoff_with_jitter
asked_for = refl

by_code : is_provider_throttle none (some "36009002") ≡ true
unfolding is_provider_throttle
by_code = refl

backoff_bounds_example :
    WaitBounds
      (min 60000 (1000 * 2 ^ min 20 (3 - 1)))
      (exponential_backoff_with_jitter 1000 60000 3 (thousandths (pos 90000000)) 500000)
      (thousandths (pos 90000000))
backoff_bounds_example =
    backoff_bounds 1000 60000 3 (thousandths (pos 90000000)) 500000 (omega arith)
