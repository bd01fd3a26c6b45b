-- ===== src/Worker/Governor/Tests.antt =====
-- Short lives of lanes.
use tiktok_outreach.Prelude.{
  ℕ, ◌*◌, ◌^◌, ◌≤◌, min, ◌≡◌, ◌↔◌, refl, none, some, or_else, arith, true, false, List, [], ◌∷◌,
  replicate, String,
}
use tiktok_outreach.Worker.Backoff.{
  absent, thousandths, bounded_retry_after, exponential_backoff_with_jitter,
}
use tiktok_outreach.Prelude.Int.{pos}
use tiktok_outreach.Worker.Governor.Lane.{
  create_conversation, send_message, healthy, ResponseMeta, accepted, Permit, Lane, Options,
  IsConfigured, send_interval, new_lane, drop_permit,
}
use tiktok_outreach.Worker.Governor.Acquire.{is_acquired, acquire}
use tiktok_outreach.Worker.Governor.Settle.{throttle_delay, settle_throttle, settle_healthy}
use tiktok_outreach.Worker.Governor.Calls.{
  Call, acquires, healthies, publishes_heartbeat, run, Holds,
}
use tiktok_outreach.Worker.Governor.Invariant.{Inv, run-Inv}
use tiktok_outreach.Worker.Governor.Spacing.{IsSpaced, admissions, send-IsSpaced}
use tiktok_outreach.Worker.Governor.Throttling.{
  IsAdmissible, acquire-is_acquired, throttle_respected, healthy_forgets_throttle,
}
use tiktok_outreach.Worker.Governor.Recovery.{Answer, answers, answers_recover}

abbrev options : Options
options = record {
  initial_concurrency = 2;
  technical_max_concurrency = 4;
  permit_lease_ms = 120000;
  send_message_interval_ms = none;
}

options-IsConfigured : IsConfigured options
options-IsConfigured = record { positive = omega arith; ordered = omega arith }

abbrev no_meta : ResponseMeta
no_meta = record { http_status = none; business_code = none }

abbrev permit : ℕ → String → ℕ → Permit
permit id owner at = record { id = id; owner = owner; expires_at = at }

-- A message is sent, another request comes too early, and a third in time.
abbrev sends : List (ℕ × Call)
sends =
    (1000, acquires "a")
    ∷ (1200, healthies (permit 0 "a" 121000) true no_meta)
    ∷ (1500, acquires "b")
    ∷ (2100, acquires "b")
    ∷ []

two_admissions : admissions (run options send_message none sends) ≡ 2100 ∷ 1000 ∷ []
unfolding run acquire settle_healthy new_lane drop_permit
two_admissions = refl

run-Inv_example :
    Holds options send_message (Inv options send_message) (run options send_message none sends)
run-Inv_example = run-Inv options send_message options-IsConfigured sends

send-IsSpaced_example :
    IsSpaced (send_interval options) (admissions (run options send_message none sends))
    × (1000 ≤ send_interval options)
send-IsSpaced_example = send-IsSpaced options sends

-- Two conversations are requested at once.
abbrev busy : Lane
busy = record {
  state = healthy;
  effective_concurrency = 2;
  technical_max = 4;
  healthy_success_count = 0;
  consecutive_throttle_count = 0;
  consecutive_failure_count = 0;
  next_permitted_at = none;
  last_request_at = some 10;
  last_success_at = none;
  last_throttle_at = none;
  retry_after_ms = none;
  last_http_status = none;
  last_business_code = none;
  quota_blocked_at = none;
  quota_code = none;
  quota_detail = none;
  permits = permit 0 "a" 120000 ∷ permit 1 "b" 120010 ∷ [];
  events = [];
  next_permit_id = 2;
}

busy-Inv : Inv options create_conversation busy
busy-Inv = record { limit = refl; positive = omega arith; capped = omega arith; held = omega arith }

acquire-is_acquired_example :
    (is_acquired (acquire options create_conversation "c" 20 (some busy)).1 ≡ true)
    ↔ IsAdmissible options create_conversation 20 busy
acquire-is_acquired_example = acquire-is_acquired options create_conversation "c" 20 busy

throttle_respected_example :
    (or_else (bounded_retry_after absent) 0 ≤ throttle_delay absent 0 busy)
    × (min 60000 (1000 * 2 ^ min 20 0) ≤ throttle_delay absent 0 busy)
    × ((m : Lane) × (run options create_conversation
            (some (settle_throttle (permit 0 "a" 120000) no_meta absent 0 100 busy))
            ((200, acquires "c") ∷ (300, publishes_heartbeat) ∷ [])
          ≡ some m)
        × (is_acquired (acquire options create_conversation "c" 400 (some m)).1 ≡ false))
unfolding throttle_delay exponential_backoff_with_jitter
throttle_respected_example =
    throttle_respected options create_conversation (permit 0 "a" 120000) no_meta absent 0 100 busy
      ((200, acquires "c") ∷ (300, publishes_heartbeat) ∷ []) "c" 400 (omega arith, (tt, tt))
      (omega arith)

healthy_forgets_throttle_example :
    let after =
      settle_healthy
        (permit 1 "b" 120010)
        accepted
        no_meta
        120
        (settle_throttle (permit 0 "a" 120000) no_meta (thousandths (pos 60000000)) 0 100 busy) in
    (after.next_permitted_at ≡ none)
    × (after.retry_after_ms ≡ none)
    × (is_acquired (acquire options create_conversation "c" 130 (some after)).1 ≡ true)
healthy_forgets_throttle_example =
    healthy_forgets_throttle options busy (permit 0 "a" 120000) (permit 1 "b" 120010) no_meta
      no_meta (thousandths (pos 60000000)) 0 100 120 130 "c" options-IsConfigured refl

abbrev good_answer : Answer
good_answer = record { permit = permit 0 "a" 0; is_accepted = true; meta = no_meta; at = 500 }

answers_recover_example :
    let after = answers (replicate 16 good_answer) busy in
    (after.effective_concurrency ≡ 4) × (after.state ≡ healthy)
answers_recover_example =
    answers_recover options create_conversation options-IsConfigured (replicate 16 good_answer) busy
      busy-Inv (omega arith)
