-- ===== src/Worker/Governor/Calls.antt =====
-- Histories of a lane: the governor's methods, and the two other writers of its row, `publishHeartbeat`
-- (apps/worker/src/main.ts) and the operator's `resume` (apps/api/src/outreach/outreach.service.ts).
use tiktok_outreach.Prelude.{
  ℕ, String, Bool, true, false, ◌&&◌, List, [], ◌∷◌, Option, none, some, ◌==◌, if◌then◌else◌,
}
use tiktok_outreach.Worker.Backoff.{RetryAfter}
use tiktok_outreach.Worker.Governor.Lane.{
  Operation, create_conversation, send_message, recovering, is_quota_blocked, Outcome, accepted,
  restricted, ResponseMeta, Permit, Lane, Options,
}
use tiktok_outreach.Worker.Governor.Acquire.{acquire}
use tiktok_outreach.Worker.Governor.Settle.{
  settle_healthy, settle_throttle, settle_transient, settle_quota_blocked, settle_release,
}

-- The outcome that `healthy` is told is one of two.
abbrev pub healthy_outcome : Bool → Outcome
healthy_outcome true = accepted
healthy_outcome false = restricted

pub data Call : Type 0 where
  acquires : String → Call
  healthies : Permit → Bool → ResponseMeta → Call
  throttles : Permit → ResponseMeta → RetryAfter → ℕ → Call
  transients : Permit → ResponseMeta → ℕ → Call
  quota_blocks : Permit → String → String → ResponseMeta → Call
  releases : Permit → String → ResponseMeta → Call
  publishes_heartbeat resumes : Call

-- The heartbeat's `updateMany` on the Send Message rows.
unfoldable pub clamp_send : Operation → Lane → Lane
clamp_send create_conversation l = l
clamp_send send_message l =
    if l.effective_concurrency == 1 && l.technical_max == 1
    then l
    else record l { effective_concurrency = 1; technical_max = 1; healthy_success_count = 0 }

-- The `updateMany` of `resume` on the shop's blocked rows.
unfoldable pub operator_retry : Lane → Lane
operator_retry l =
    if is_quota_blocked l.state
    then record l {
      state = recovering;
      effective_concurrency = 1;
      healthy_success_count = 0;
      consecutive_throttle_count = 0;
      consecutive_failure_count = 0;
      next_permitted_at = none;
      quota_blocked_at = none;
      quota_code = none;
      quota_detail = none;
    }
    else l

module _ (o : Options) (op : Operation) where
  unfoldable pub settle : ℕ → Call → Lane → Lane
  unfolding clamp_send operator_retry
  settle now (acquires owner) l = (acquire o op owner now (some l)).0
  settle now (healthies p ok meta) l = settle_healthy p (healthy_outcome ok) meta now l
  settle now (throttles p meta r draw) l = settle_throttle p meta r draw now l
  settle now (transients p meta draw) l = settle_transient p meta draw now l
  settle now (quota_blocks p code detail meta) l = settle_quota_blocked p code detail meta now l
  settle now (releases p outcome meta) l = settle_release p outcome meta now l
  settle now publishes_heartbeat l = clamp_send op l
  settle now resumes l = operator_retry l

  -- Only `acquire` makes the row; the other methods throw or match no row while there is none.
  unfoldable pub step : Option Lane → ℕ × Call → Option Lane
  unfolding settle
  step none (now, acquires owner) = some (acquire o op owner now none).0
  step none (now, c) = none
  step (some l) (now, c) = some (settle now c l)

  unfoldable pub run : Option Lane → List (ℕ × Call) → Option Lane
  unfolding step
  run stored [] = stored
  run stored (c ∷ cs) = run (step stored c) cs

  -- An invariant of the lane that a new row has and every call keeps holds of every history.
  abbrev pub Holds : (Lane → Type 0) → Option Lane → Type 0
  Holds P none = Unit
  Holds P (some l) = P l

  module _ (P : Lane → Type 0)
      (fresh : (owner : String) (now : ℕ) → P (acquire o op owner now none).0)
      (keeps : (now : ℕ) (c : Call) (l : Lane) → P l → P (settle now c l)) where
    step-Holds : (stored : Option Lane) (c : ℕ × Call) → Holds P stored → Holds P (step stored c)
    unfolding step
    step-Holds none (now, acquires owner) h = fresh owner now
    step-Holds none (now, c) h = tt
    step-Holds (some l) (now, c) h = keeps now c l h

    run-Holds_from :
        (stored : Option Lane) (cs : List (ℕ × Call)) → Holds P stored → Holds P (run stored cs)
    unfolding run
    run-Holds_from stored [] h = h
    run-Holds_from stored (c ∷ cs) h = run-Holds_from (step stored c) cs (step-Holds stored c h)

    pub run-Holds : (cs : List (ℕ × Call)) → Holds P (run none cs)
    run-Holds cs = run-Holds_from none cs tt
