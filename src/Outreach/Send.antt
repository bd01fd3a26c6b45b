-- ===== src/Outreach/Send.antt =====
-- send of OutreachService (apps/api/src/outreach/outreach.service.ts): freeze and queueFrozen by one
-- action. The tables do not change between its parts.
pub mod Unqueued
pub mod Committed
pub mod Safely
mod Tests
use tiktok_outreach.Prelude.{ℕ, String, Bool, true, false, not, Option, none, some, if◌then◌else◌}
use tiktok_outreach.Worker.Dispatch.Rows.{CampaignState, Campaign, Store, campaign?}
use tiktok_outreach.Outreach.Results.{
  OutreachError, unexpected, campaign_not_found, outbound_unavailable, preview_not_ready, MethodEnd,
  SendError, as_is, is_frozen_campaign, safe_send_failure,
}
use tiktok_outreach.Outreach.Expiry.{expire_frozen_campaigns}
use tiktok_outreach.Outreach.Freeze.{Outside, is_preview_ready, freeze}
use tiktok_outreach.Outreach.Queue.{QueueAnswers, NewIds, queue_frozen}

-- The states in which a campaign has been sent, or was cancelled: send only answers it.
abbrev pub is_past_send : CampaignState → Bool
is_past_send CampaignState.queued = true
is_past_send CampaignState.running = true
is_past_send CampaignState.pause_requested = true
is_past_send CampaignState.paused = true
is_past_send CampaignState.safety_paused = true
is_past_send CampaignState.completed = true
is_past_send CampaignState.completed_with_errors = true
is_past_send CampaignState.cancelled = true
is_past_send _ = false

abbrev pub SendEnd : Type 0
SendEnd = Option SendError × Store

-- `requiredCampaign`, and what follows it.
abbrev pub with_campaign : Option Campaign → Store → (Campaign → SendEnd) → SendEnd
with_campaign none s f = (some (as_is campaign_not_found), s)
with_campaign (some c) s f = f c

-- `return this.get(id)`.
abbrev pub get_answer : QueueAnswers → Store → SendEnd
get_answer q s = if q.answer_fails then (some (as_is unexpected), s) else (none, s)

-- `requiredCampaign` after freeze or in a handler, which may throw.
abbrev pub reread : QueueAnswers → Option Campaign → Store → (Campaign → SendEnd) → SendEnd
reread q o s f = if q.reread_fails then (some (as_is unexpected), s) else with_campaign o s f

-- The handler of an error of queueFrozen.
unfoldable pub after_queue : QueueAnswers → ℕ → MethodEnd → SendEnd
unfolding safe_send_failure
after_queue q id (none, s) = (none, s)
after_queue q id (some e, s) =
    reread q (campaign? id s) s (λ c.
      if is_past_send c.state then get_answer q s else (some (safe_send_failure e c.state), s))

module _ (w : Outside) (q : QueueAnswers) (ids : NewIds) (now id version : ℕ) where
  -- What follows the freeze, on the campaign as it then is.
  unfoldable pub queue_if_frozen : Store → Campaign → SendEnd
  unfolding queue_frozen after_queue
  queue_if_frozen s c =
      if is_frozen_campaign c.state
      then after_queue q id (queue_frozen q ids now id c.version s)
      else get_answer q s

  -- The handler of an error of freeze: a campaign that is FROZEN all the same goes on.
  unfoldable pub after_freeze : MethodEnd → SendEnd
  unfolding queue_if_frozen safe_send_failure
  after_freeze (none, s) = reread q (campaign? id s) s (queue_if_frozen s)
  after_freeze (some e, s) = reread q (campaign? id s) s (λ c.
      if is_frozen_campaign c.state
      then queue_if_frozen s c
      else (some (safe_send_failure e c.state), s))

  unfoldable pub send_ready : Store → Campaign → SendEnd
  unfolding after_freeze after_queue freeze queue_frozen
  send_ready s c =
      if is_preview_ready c.state
      then after_freeze (freeze w now id version s)
      else if is_frozen_campaign c.state
      then after_queue q id (queue_frozen q ids now id version s)
      else (some (as_is preview_not_ready), s)

  -- `requireOutboundAvailable`, and what follows it.
  abbrev pub send_unsent : Option String → Store → Campaign → SendEnd
  send_unsent none s c = send_ready s c
  send_unsent (some reason) s c = (some (as_is (outbound_unavailable reason)), s)

  unfoldable pub send : Store → SendEnd
  unfolding send_ready expire_frozen_campaigns
  send s =
      let t = (expire_frozen_campaigns now s).1 in
      with_campaign (campaign? id t) t
        (λ c. if is_past_send c.state then get_answer q t else send_unsent w.unavailable t c)
