-- ===== src/Worker/Dispatch/Settle.antt =====
-- The transactions that settle a delivery: the helpers of apps/worker/src/main.ts and
-- recoverDispatchingDelivery (apps/worker/src/delivery-policy.ts). An update of a row that is missing
-- changes nothing; the program deletes no campaign, recipient or delivery.
use tiktok_outreach.Prelude.{
  ℕ, suc, ◌+◌, ◌-◌, min, String, Bool, true, false, not, ◌&&◌, ◌||◌, List, ◌∷◌, map, Option, none,
  some, str_eq, ◌==◌, if◌then◌else◌, or_else, is_some, some_and, any, select, get_elem?, length,
}
use tiktok_outreach.Prelude.Tables.{update_where, delete_where, upsert}
use tiktok_outreach.Worker.Governor.{patch}
use tiktok_outreach.Worker.Dispatch.Completion.{
  all_frozen_recipients_terminal, campaign_completion_summary,
}
use tiktok_outreach.Worker.Dispatch.Rows.{
  CampaignState, RecipientState, DeliveryState, OutboxState, AttemptOutcome, RunState, Campaign,
  Recipient, Delivery, Contact, OutboxEntry, HistoricalFact, AuditKind, Store, Snapshot,
  is_campaign, is_recipient, is_delivery, reserves, is_contact, is_entry, is_attempt, is_run,
  campaign?, recipient?, is_active,
}

abbrev pub is_unknown : DeliveryState → Bool
is_unknown DeliveryState.delivery_unknown = true
is_unknown DeliveryState.delivery_unknown_unresolved = true
is_unknown _ = false

abbrev same_text : Option String → Option String → Bool
same_text none none = true
same_text (some a) (some b) = str_eq a b
same_text _ _ = false

-- `outreachDelivery.update`, `campaignRecipient.update` and the two releases that end a recipient.
abbrev pub set_delivery : ℕ → (Delivery → Delivery) → Store → Store
set_delivery id f s = record s { deliveries = update_where (is_delivery id) f s.deliveries }

abbrev pub set_recipient : ℕ → (Recipient → Recipient) → Store → Store
set_recipient id f s = record s { recipients = update_where (is_recipient id) f s.recipients }

abbrev pub release_reservation : ℕ → Store → Store
release_reservation recipient s = record s {
  reservations = delete_where (reserves recipient) s.reservations;
}

abbrev pub complete_entry : ℕ → Store → Store
complete_entry recipient s = record s {
  outbox =
      update_where (is_entry recipient) (λ e. record e { state = OutboxState.completed }) s.outbox;
}

abbrev pub new_contact : Snapshot → Contact
new_contact r = record {
  shop_id = r.campaign.shop_id;
  creator_id = r.recipient.creator_id;
  do_not_contact = false;
  unresolved_delivery = true;
  first_contacted_at = none;
  last_contacted_at = none;
  contact_count = 0;
  last_campaign_id = none;
  last_delivery_id = some r.delivery.id;
}

-- The upsert that records an unresolved delivery of the creator.
abbrev pub set_unresolved : Snapshot → Store → Store
set_unresolved r s = record s {
  contacts =
      upsert (is_contact r.campaign.shop_id r.recipient.creator_id)
        (λ k. record k { unresolved_delivery = true; last_delivery_id = some r.delivery.id })
        (new_contact r) s.contacts;
}

unfoldable pub recover_dispatching_delivery : Snapshot → Store → Store
recover_dispatching_delivery r s = complete_entry r.recipient.id (
    set_unresolved r (
      set_recipient r.recipient.id (λ p. record p { state = RecipientState.delivery_unknown })
        (set_delivery r.delivery.id (λ d. record d { state = DeliveryState.delivery_unknown }) s)))

-- Another delivery to this creator in this shop whose outcome is unknown.
abbrev is_other_unknown : Snapshot → Store → Delivery → Bool
is_other_unknown r s d =
    not (d.id == r.delivery.id)
    && is_unknown d.state
    && some_and (recipient? d.recipient_id s) (λ p. p.creator_id == r.recipient.creator_id)
    && some_and (campaign? d.campaign_id s) (λ c. c.shop_id == r.campaign.shop_id)

abbrev is_unknown_fact : Snapshot → HistoricalFact → Bool
is_unknown_fact r f =
    f.shop_id == r.campaign.shop_id
    && same_text f.creator_open_id r.creator_open_id
    && f.is_unknown
    && f.is_matched

abbrev pub still_unresolved : Snapshot → Store → Bool
still_unresolved r s = any (is_other_unknown r s) s.deliveries || any (is_unknown_fact r) s.facts

abbrev contacted : Snapshot → ℕ → Bool → Contact → Contact
contacted r now unresolved k = record k {
  first_contacted_at = some (or_else k.first_contacted_at now);
  last_contacted_at = some now;
  contact_count = suc k.contact_count;
  last_campaign_id = some r.recipient.campaign_id;
  last_delivery_id = some r.delivery.id;
  unresolved_delivery = unresolved;
}

abbrev pub sent_delivery : ℕ → String → String → Option String → Delivery → Delivery
sent_delivery now conversation message request d = record d {
  state = DeliveryState.sent;
  conversation_id = some conversation;
  external_message_id = some message;
  provider_request_id = patch request d.provider_request_id;
  sent_at = some now;
}

unfoldable pub mark_sent : Snapshot → String → String → Option String → ℕ → Store → Store
mark_sent r conversation message request now s =
    let marked =
      set_recipient r.recipient.id (λ p. record p { state = RecipientState.sent })
        (set_delivery r.delivery.id (sent_delivery now conversation message request) s) in
    let unresolved = still_unresolved r marked in
    complete_entry r.recipient.id (
      release_reservation r.recipient.id (record marked {
        contacts =
            upsert (is_contact r.campaign.shop_id r.recipient.creator_id)
              (contacted r now unresolved) (contacted r now unresolved (new_contact r))
              marked.contacts;
      }))

-- `reconciliationDelays[Math.min(attemptNumber - 1, length - 1)] ?? 300_000`.
abbrev pub reconciliation_delay : List ℕ → ℕ → ℕ
reconciliation_delay delays n = or_else (get_elem? delays (min (n - 1) (length delays - 1))) 300000

-- The run's row; the delayed job itself is the queue's.
unfoldable pub schedule_reconciliation : List ℕ → ℕ → ℕ → ℕ → Store → Store
schedule_reconciliation delays delivery n now s =
    let at = now + reconciliation_delay delays n in
    record s {
      runs =
          upsert (is_run delivery n) (λ x. record x { scheduled_for = at })
            (record {
              delivery_id = delivery;
              attempt_number = n;
              state = RunState.pending;
              matched_message_id = none;
              scheduled_for = at;
              completed_at = none;
            })
            s.runs;
    }

unfoldable pub mark_terminal_failure : Snapshot → String → Store → Store
mark_terminal_failure r code s = complete_entry r.recipient.id (
    release_reservation r.recipient.id (
      set_recipient r.recipient.id
        (λ p. record p { state = RecipientState.failed; skip_reason = some code })
        (set_delivery r.delivery.id
          (λ d. record d { state = DeliveryState.failed_terminal; last_error_code = some code })
          s)))

-- The answer of the provider that an attempt's row keeps.
pub record Reply : Type 0 where
  pub code : Option String
  pub http_status : Option ℕ
  pub request_id : Option String

unfoldable pub end_attempt : ℕ → ℕ → AttemptOutcome → Reply → ℕ → Store → Store
end_attempt delivery n outcome reply now s = record s {
  attempts =
      update_where (is_attempt delivery n)
        (λ a. record a {
          outcome = outcome;
          provider_code = patch reply.code a.provider_code;
          http_status = patch reply.http_status a.http_status;
          request_id = patch reply.request_id a.request_id;
          completed_at = some now;
        })
        s.attempts;
}

unfoldable pub mark_delivery_unknown : Snapshot → ℕ → Option String → Option ℕ → ℕ → Store → Store
unfolding end_attempt
mark_delivery_unknown r n request status now s = complete_entry r.recipient.id (
    set_unresolved r (
      set_recipient r.recipient.id (λ p. record p { state = RecipientState.delivery_unknown })
        (set_delivery r.delivery.id
          (λ d. record d {
            state = DeliveryState.delivery_unknown;
            provider_request_id = patch request d.provider_request_id;
            last_error_code = some "DELIVERY_UNKNOWN";
          })
          (end_attempt r.delivery.id n AttemptOutcome.delivery_unknown
            (record { code = some "DELIVERY_UNKNOWN"; http_status = status; request_id = request })
            now s))))

-- The recipients that completeCampaignIfDone reads.
abbrev pub is_frozen_of : ℕ → Recipient → Bool
is_frozen_of campaign p = p.campaign_id == campaign && p.selected && is_some p.frozen_message

abbrev pub frozen_states : ℕ → Store → List RecipientState
frozen_states campaign s = map (λ p. p.state) (select (is_frozen_of campaign) s.recipients)

abbrev is_campaign_cancelled : CampaignState → Bool
is_campaign_cancelled CampaignState.cancelled = true
is_campaign_cancelled _ = false

abbrev pub finish : List RecipientState → Campaign → Campaign
finish states c =
    let completion = campaign_completion_summary states in
    if is_campaign_cancelled c.state then c else record c {
      state =
          if completion.completed_successfully
          then CampaignState.completed
          else CampaignState.completed_with_errors;
      completion = some completion;
    }

unfoldable pub complete_campaign_if_done : ℕ → Store → Store
complete_campaign_if_done campaign s =
    let states = frozen_states campaign s in
    if all_frozen_recipients_terminal states
    then record s { campaigns = update_where (is_campaign campaign) (finish states) s.campaigns }
    else s

unfoldable pub mark_restricted : Snapshot → String → Store → Store
mark_restricted r code s = complete_entry r.recipient.id (
    release_reservation r.recipient.id (
      set_recipient r.recipient.id
        (λ p. record p { state = RecipientState.restricted; skip_reason = some code })
        (set_delivery r.delivery.id
          (λ d. record d { state = DeliveryState.restricted; last_error_code = some code }) s)))

abbrev pub is_waiting : OutboxState → Bool
is_waiting OutboxState.pending = true
is_waiting OutboxState.enqueued = true
is_waiting _ = false

abbrev pub pauses_campaign : ℕ → Campaign → Bool
pauses_campaign shop c = c.shop_id == shop && is_active c.state

-- An entry of the shop that waits: its campaign is the shop's.
abbrev pauses_entry : ℕ → Store → OutboxEntry → Bool
pauses_entry shop s e =
    is_waiting e.state && some_and (campaign? e.campaign_id s) (λ c. c.shop_id == shop)

-- pauseShopForProviderFailure and pauseShopForProviderQuota, which differ in the texts.
unfoldable pub pause_shop : Snapshot → String → AuditKind → Store → Store
pause_shop r reason kind s = record s {
  campaigns =
      update_where (pauses_campaign r.campaign.shop_id)
        (λ c. record c {
          state = CampaignState.safety_paused;
          safety_pause_reason = some reason;
          version = suc c.version;
        })
        s.campaigns;
  outbox =
      update_where (pauses_entry r.campaign.shop_id s)
        (λ e. record e { state = OutboxState.safety_paused; last_error = some reason }) s.outbox;
  audit =
      record { shop_id = r.campaign.shop_id; campaign_id = r.recipient.campaign_id; kind = kind }
      ∷ s.audit;
}

unfoldable pub make_delivery_retryable : Snapshot → String → Store → Store
make_delivery_retryable r code s =
    set_recipient r.recipient.id (λ p. record p { state = RecipientState.queued })
      (set_delivery r.delivery.id
        (λ d. record d { state = DeliveryState.failed_retryable; last_error_code = some code }) s)
