-- ===== src/Worker/Dispatch/Tests.antt =====
-- One delivery, two workers.
use tiktok_outreach.Prelude.{
  ℕ, ◌≤◌, ◌≡◌, ◌↔◌, refl, String, true, false, List, [], ◌∷◌, none, some, or_else,
}
use tiktok_outreach.Worker.Governor.{Permit}
use tiktok_outreach.Worker.Dispatch.Rows.{
  CampaignState, RecipientState, DeliveryState, Store, is_claimable, is_active,
}
use tiktok_outreach.Worker.Dispatch.Reserve.{
  ExclusionReason, DispatchClaim, claimed, unclaimed, excluded, is_claimed, reading, exclusion,
  exclude, dispatch, decide, reserve_with, reserve_dispatch_slot,
}
use tiktok_outreach.Worker.Dispatch.Claim.{IsSafe, reserve-IsSafe}
use tiktok_outreach.Worker.Dispatch.Effect.{Claims, claim_effect}
use tiktok_outreach.Worker.Dispatch.Settle.{recover_dispatching_delivery, schedule_reconciliation}
use tiktok_outreach.Worker.Dispatch.Send.{Conversed, Sent, after_send}
use tiktok_outreach.Worker.Dispatch.Jobs.{gate, delivery_action, load, start_attempt, apply}
use tiktok_outreach.Worker.Dispatch.World.{
  Event, reads, claims, starts, converses, stores, awaits, sends, commits, crashes, Setting, Step,
  read_job, claim, advance, step, run, start,
}
use tiktok_outreach.Worker.Dispatch.Moves.{holds, accepted}
use tiktok_outreach.Worker.Dispatch.Sample.{
  campaign, recipient, delivery, blocked, database, snapshot,
}
use tiktok_outreach.Worker.Dispatch.Once.{sent_once, held_once}

abbrev day_of : String → ℕ → ℕ
day_of timezone at = 0

abbrev after_claim : Store
after_claim =
    (or_else (reserve_dispatch_slot snapshot 1000 day_of (database [])) (database [], unclaimed)).0

claimed_first :
    reserve_dispatch_slot snapshot 1000 day_of (database []) ≡ some (after_claim, claimed 1)
unfolding reserve_dispatch_slot reserve_with decide exclusion dispatch
claimed_first = refl

abbrev after_exclusion : Store
after_exclusion =
    (or_else (reserve_dispatch_slot snapshot 1000 day_of (database (blocked ∷ [])))
      (database [], unclaimed)).0

excluded_first :
    reserve_dispatch_slot snapshot 1000 day_of (database (blocked ∷ []))
    ≡ some (after_exclusion, excluded ExclusionReason.do_not_contact)
unfolding reserve_dispatch_slot reserve_with decide exclusion exclude
excluded_first = refl

not_again : reserve_dispatch_slot snapshot 2000 day_of after_claim ≡ some (after_claim, unclaimed)
unfolding reserve_dispatch_slot reserve_with decide exclusion dispatch
not_again = refl

reserve-IsSafe_example :
    (result : Store × DispatchClaim) × (reserve_dispatch_slot snapshot 1000 day_of (database [])
      ≡ some result)
    × ((is_claimed result.1 ≡ true) ↔ (
        (is_claimable DeliveryState.pending ≡ true)
        × (is_active CampaignState.queued ≡ true)
        × IsSafe snapshot 1000 (reading snapshot 1000 campaign delivery recipient (database []))))
reserve-IsSafe_example =
    reserve-IsSafe snapshot 1000 day_of (database []) campaign delivery recipient refl refl refl

claim_effect_example : Claims snapshot 1000 day_of (database []) after_claim 1
claim_effect_example = claim_effect snapshot 1000 day_of (database []) after_claim 1 claimed_first

abbrev states : List RecipientState
states = RecipientState.sent ∷ RecipientState.failed ∷ RecipientState.sent ∷ []

abbrev setting : Setting
setting = record { shop_date = day_of; open_id = λ creator. some "o"; delays = 1000 ∷ [] }

abbrev permit : Permit
permit = record { id = 0; owner = "a"; expires_at = 9000 }

abbrev at : ℕ → ℕ → Event → Step
at now worker event = record { now = now; worker = worker; event = event }

-- Worker 0 sends the message and crashes before it stores the answer; worker 1 finds the delivery
-- DISPATCHING, and records that its outcome is unknown; then nobody takes it.
abbrev crash : List Step
crash =
    at 10 0 (reads 5)
    ∷ at 11 1 (reads 5)
    ∷ at 12 0 claims
    ∷ at 13 1 claims
    ∷ at 14 0 starts
    ∷ at 15 0 (converses permit false 0 (Conversed.opened "c"))
    ∷ at 16 0 (stores true)
    ∷ at 17 0 (awaits true)
    ∷ at 18 0 (sends permit false 0 (Sent.sent "m" "q" none))
    ∷ at 19 0 crashes
    ∷ at 20 1 (reads 5)
    ∷ at 21 1 commits
    ∷ at 22 1 commits
    ∷ at 23 1 commits
    ∷ at 24 1 (reads 5)
    ∷ at 25 1 claims
    ∷ []

crash_sends : accepted 9 (run setting (start (database [])) crash).sendings ≡ 1
unfolding run step advance read_job claim load gate delivery_action reserve_dispatch_slot
    reserve_with decide exclusion dispatch start_attempt after_send apply
    recover_dispatching_delivery schedule_reconciliation
crash_sends = refl

sent_once_example : accepted 9 (run setting (start (database [])) crash).sendings ≤ 1
sent_once_example = sent_once 9 setting (database []) crash

abbrev claiming : List Step
claiming =
    at 10 0 (reads 5) ∷ at 11 1 (reads 5) ∷ at 12 0 claims ∷ at 13 1 claims ∷ at 14 0 starts ∷ []

holds_first : holds 9 ((run setting (start (database [])) claiming).workers 0) ≡ true
unfolding run step advance read_job claim load gate delivery_action reserve_dispatch_slot
    reserve_with decide exclusion dispatch start_attempt
holds_first = refl

held_once_example : ◌≡◌ {A = ℕ} 0 0
held_once_example = held_once 9 setting (database []) claiming 0 0 holds_first holds_first
