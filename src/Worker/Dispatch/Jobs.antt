-- ===== src/Worker/Dispatch/Jobs.antt =====
-- The jobs of the queue (apps/worker/src/main.ts): what processSend does before the claim and around
-- the provider's calls, and processReconciliation, as lists of transactions; and what each
-- transaction does to the database.
use tiktok_outreach.Prelude.{
  ℕ, suc, String, Bool, true, false, not, ◌&&◌, List, [], ◌∷◌, Option, none, some, str_eq, ltb,
  ◌==◌, if◌then◌else◌, is_some, some_and, any, find, truthy,
}
use tiktok_outreach.Prelude.Tables.{update_where}
use tiktok_outreach.Domain.Reconciliation.{
  ReconciliationMessage, Reconciled, matched, unresolved, reconcile_unknown_delivery,
}
use tiktok_outreach.Worker.Dispatch.Rows.{
  CampaignState, RecipientState, DeliveryState, AttemptOutcome, RunState, Campaign, Delivery, Store,
  Snapshot, is_campaign, is_run, campaign?, recipient?,
}
use tiktok_outreach.Worker.Dispatch.Settle.{
  set_delivery, set_recipient, release_reservation, recover_dispatching_delivery, mark_sent,
  schedule_reconciliation, mark_terminal_failure, end_attempt, mark_delivery_unknown,
  complete_campaign_if_done, mark_restricted, pause_shop, make_delivery_retryable, Reply,
}
use tiktok_outreach.Worker.Dispatch.Send.{
  Effect, governs, starts_attempt, sets_conversation, ends_attempt, recovers, marks_sent,
  marks_terminal, marks_unknown, marks_restricted, schedules, retries, pauses_shop, pauses_campaign,
  pauses_requested, completes_campaign, ends_run, leaves_unresolved, JobEnd, done, delayed,
}

pub data DeliveryAction : Type 0 where
  dispatch recover_as_unknown skip : DeliveryAction

unfoldable pub delivery_action : DeliveryState → DeliveryAction
delivery_action DeliveryState.dispatching = recover_as_unknown
delivery_action DeliveryState.sent = skip
delivery_action DeliveryState.restricted = skip
delivery_action DeliveryState.failed_terminal = skip
delivery_action DeliveryState.cancelled = skip
delivery_action DeliveryState.delivery_unknown = skip
delivery_action DeliveryState.delivery_unknown_unresolved = skip
delivery_action _ = dispatch

pub data Gate : Type 0 where
  proceeds : Gate
  ends : List Effect → JobEnd → Gate

abbrev campaign_gate : Snapshot → Gate
campaign_gate r = elim r.campaign.state [
  | CampaignState.pause_requested ↦ ends (pauses_campaign ∷ []) (delayed 5000)
  | CampaignState.paused ↦ ends [] (delayed 5000)
  | CampaignState.safety_paused ↦ ends [] done
  | _ ↦
      if is_some (truthy r.recipient.creator_open_id)
      then proceeds
      else ends (marks_terminal "INVALID_MESSAGING_ID" ∷ completes_campaign ∷ []) done
]

-- processSend up to the permit for the conversation.
unfoldable pub gate : Snapshot → Gate
unfolding delivery_action
gate r =
    if not
      (is_some (truthy r.recipient.frozen_message) && is_some (truthy r.recipient.content_hash))
    then ends [] done
    else elim (delivery_action r.delivery.state) [
      | skip ↦ ends [] done
      | recover_as_unknown ↦ ends (recovers ∷ schedules 1 ∷ []) done
      | dispatch ↦ campaign_gate r
    ]

abbrev failed_reply : String → Reply
failed_reply code = record { code = some code; http_status = none; request_id = none }

-- The conversation could not be stored.
abbrev pub persistence_failed : List Effect
persistence_failed =
    ends_attempt AttemptOutcome.failed_retryable
      (failed_reply "LOCAL_CONVERSATION_PERSISTENCE_FAILED")
    ∷ retries "LOCAL_CONVERSATION_PERSISTENCE_FAILED"
    ∷ []

-- The campaign was no longer active while the permit for the message was awaited.
abbrev pub paused_before_send : List Effect
paused_before_send =
    ends_attempt AttemptOutcome.failed_retryable (failed_reply "CAMPAIGN_PAUSED_BEFORE_SEND")
    ∷ retries "CAMPAIGN_PAUSED_BEFORE_SEND"
    ∷ pauses_requested
    ∷ []

abbrev is_delivery_unknown : DeliveryState → Bool
is_delivery_unknown DeliveryState.delivery_unknown = true
is_delivery_unknown _ = false

abbrev is_linked : Store → String → Bool
is_linked s message =
    any (λ d. some_and d.external_message_id (λ id. str_eq id message)) s.deliveries

abbrev pub settle_reconciliation : ℕ → String → Reconciled → List Effect
settle_reconciliation n conversation (matched message) =
    ends_run n (some message)
    ∷ marks_sent conversation message (some "mock-reconciliation")
    ∷ completes_campaign
    ∷ []
settle_reconciliation n conversation (unresolved reason) =
    if ltb n 3
    then ends_run n none ∷ schedules (suc n) ∷ completes_campaign ∷ []
    else leaves_unresolved n ∷ completes_campaign ∷ []

abbrev reconciliation_with :
    Store → ℕ → Delivery → String → ℕ → List ReconciliationMessage → List Effect
reconciliation_with s n d conversation at messages = settle_reconciliation n conversation (
    reconcile_unknown_delivery (record {
      conversation_id = conversation;
      content_hash = d.content_hash;
      dispatched_at = at;
      messages = messages;
      already_linked = is_linked s;
    }))

-- processReconciliation on the delivery it has read; `messages` are those of its conversation.
unfoldable pub process_reconciliation :
    Store → ℕ → Delivery → (String → List ReconciliationMessage) → List Effect
process_reconciliation s n d messages =
    if not (is_delivery_unknown d.state) then [] else elim d.conversation_id [
      | none ↦ []
      | some conversation ↦ elim d.first_dispatched_at [
        | none ↦ []
        | some at ↦ reconciliation_with s n d conversation at (messages conversation)
      ]
    ]

abbrev is_pause_requested : CampaignState → Bool
is_pause_requested CampaignState.pause_requested = true
is_pause_requested _ = false

abbrev set_campaign : (Campaign → Bool) → Store → Store
set_campaign p s = record s {
  campaigns = update_where p (λ c. record c { state = CampaignState.paused }) s.campaigns;
}

unfoldable pub end_run : ℕ → ℕ → Option String → ℕ → Store → Store
end_run delivery n message now s = record s {
  runs =
      update_where (is_run delivery n)
        (λ x. record x {
          state = if is_some message then RunState.matched else RunState.unresolved;
          matched_message_id = message;
          completed_at = some now;
        })
        s.runs;
}

unfoldable pub leave_unresolved : Snapshot → ℕ → ℕ → Store → Store
unfolding end_run
leave_unresolved r n now s = release_reservation r.recipient.id (
    set_recipient r.recipient.id
      (λ p. record p { state = RecipientState.delivery_unknown_unresolved })
      (set_delivery r.delivery.id
        (λ d. record d { state = DeliveryState.delivery_unknown_unresolved })
        (end_run r.delivery.id n none now s)))

unfoldable pub start_attempt : ℕ → ℕ → ℕ → Store → Store
start_attempt delivery n now s = record s {
  attempts =
      record {
        delivery_id = delivery;
        attempt_number = n;
        outcome = AttemptOutcome.started;
        provider_code = none;
        http_status = none;
        request_id = none;
        started_at = now;
        completed_at = none;
      }
      ∷ s.attempts;
}

-- The transactions, for the recipient that the job has read and its attempt. The governor's rows
-- are those of Worker/Governor.
unfoldable pub apply : List ℕ → Snapshot → ℕ → ℕ → Effect → Store → Store
unfolding recover_dispatching_delivery mark_sent schedule_reconciliation mark_terminal_failure
    end_attempt mark_delivery_unknown complete_campaign_if_done mark_restricted pause_shop
    make_delivery_retryable end_run leave_unresolved start_attempt
apply delays r n now (governs op call) s = s
apply delays r n now starts_attempt s = start_attempt r.delivery.id n now s
apply delays r n now (sets_conversation id) s =
    set_delivery r.delivery.id (λ d. record d { conversation_id = some id }) s
apply delays r n now (ends_attempt outcome reply) s =
    end_attempt r.delivery.id n outcome reply now s
apply delays r n now recovers s = recover_dispatching_delivery r s
apply delays r n now (marks_sent conversation message request) s =
    mark_sent r conversation message request now s
apply delays r n now (marks_terminal code) s = mark_terminal_failure r code s
apply delays r n now (marks_unknown request status) s =
    mark_delivery_unknown r n request status now s
apply delays r n now (marks_restricted code) s = mark_restricted r code s
apply delays r n now (schedules k) s = schedule_reconciliation delays r.delivery.id k now s
apply delays r n now (retries code) s = make_delivery_retryable r code s
apply delays r n now (pauses_shop reason kind) s = pause_shop r reason kind s
apply delays r n now pauses_campaign s = set_campaign (is_campaign r.recipient.campaign_id) s
apply delays r n now pauses_requested s =
    set_campaign (λ c. is_campaign r.recipient.campaign_id c && is_pause_requested c.state) s
apply delays r n now completes_campaign s = complete_campaign_if_done r.recipient.campaign_id s
apply delays r n now (ends_run k message) s = end_run r.delivery.id k message now s
apply delays r n now (leaves_unresolved k) s = leave_unresolved r k now s

-- What processSend reads: `open_id` is the creator's.
unfoldable pub load : (ℕ → Option String) → ℕ → Store → Option Snapshot
load open_id recipient s = elim (recipient? recipient s) [
  | none ↦ none
  | some p ↦ elim (campaign? p.campaign_id s) [
    | none ↦ none
    | some c ↦ elim (find (λ d. d.recipient_id == recipient) s.deliveries) [
      | none ↦ none
      | some d ↦ some (record {
        recipient = p;
        creator_open_id = open_id p.creator_id;
        campaign = c;
        delivery = d;
      })
    ]
  ]
]
