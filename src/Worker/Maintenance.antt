-- ===== src/Worker/Maintenance.antt =====
-- maintenanceSweep (apps/worker/src/main.ts): entries of ended deliveries are closed, frozen
-- campaigns expire, and what is queued is put on the queue again.
pub mod Expiry
mod Tests
use tiktok_outreach.Prelude.{
  ℕ, suc, String, Bool, true, false, not, ◌&&◌, ◌||◌, List, [], ◌∷◌, Option, none, some, ◌==◌, leb,
  if◌then◌else◌, some_and, select, take, find, count,
}
use tiktok_outreach.Prelude.Tables.{update_where, delete_where, upsert}
use tiktok_outreach.Worker.Dispatch.Rows.{
  CampaignState, RecipientState, DeliveryState, OutboxState, Campaign, Recipient, Delivery,
  Reservation, OutboxEntry, AuditKind, Store, is_campaign, is_entry, campaign?, recipient?,
  delivery?, is_active,
}
use tiktok_outreach.Worker.Dispatch.Settle.{is_waiting}

-- The states in which nothing is left to send.
abbrev pub is_ended : DeliveryState → Bool
is_ended DeliveryState.sent = true
is_ended DeliveryState.restricted = true
is_ended DeliveryState.failed_terminal = true
is_ended DeliveryState.delivery_unknown = true
is_ended DeliveryState.delivery_unknown_unresolved = true
is_ended DeliveryState.cancelled = true
is_ended _ = false

abbrev pub is_ended_entry : Store → OutboxEntry → Bool
is_ended_entry s e =
    is_waiting e.state && some_and (delivery? e.delivery_id s) (λ d. is_ended d.state)

unfoldable pub close_ended : Store → Store
close_ended s = record s {
  outbox =
      update_where (is_ended_entry s)
        (λ e. record e { state = OutboxState.completed; last_error = none }) s.outbox;
}

abbrev pub is_frozen : CampaignState → Bool
is_frozen CampaignState.frozen = true
is_frozen _ = false

abbrev pub is_expired : ℕ → Campaign → Bool
is_expired now c = is_frozen c.state && some_and c.freeze_expires_at (λ t. leb t now)

abbrev pub is_reserved_of : ℕ → Recipient → Bool
is_reserved_of campaign p = p.campaign_id == campaign && is_reserved_state p.state
  where
    is_reserved_state : RecipientState → Bool
    is_reserved_state RecipientState.reserved = true
    is_reserved_state _ = false

abbrev pub reserves_for : ℕ → Store → Reservation → Bool
reserves_for campaign s v = some_and (recipient? v.recipient_id s) (λ p. p.campaign_id == campaign)

abbrev pub expired_row : Campaign → Campaign
expired_row c = record c { state = CampaignState.preview_expired; version = suc c.version }

-- One turn of the loop over the expired campaigns: nothing where no row was changed.
unfoldable pub expire_campaign : ℕ → Campaign → Store → Store
expire_campaign now c s =
    if count (λ d. is_campaign c.id d && is_expired now d) s.campaigns == 0 then s else record s {
      campaigns =
          update_where (λ d. is_campaign c.id d && is_expired now d) expired_row s.campaigns;
      reservations = delete_where (reserves_for c.id s) s.reservations;
      recipients =
          update_where (is_reserved_of c.id)
            (λ p. record p {
              state = RecipientState.selected;
              frozen_message = none;
              content_hash = none;
            })
            s.recipients;
      audit =
          record {
            shop_id = c.shop_id;
            campaign_id = c.id;
            kind = AuditKind.campaign_freeze_expired;
          }
          ∷ s.audit;
    }

unfoldable pub expire_campaigns : ℕ → List Campaign → Store → Store
unfolding expire_campaign
expire_campaigns now [] s = s
expire_campaigns now (c ∷ cs) s = expire_campaigns now cs (expire_campaign now c s)

unfoldable pub expire_frozen : ℕ → Store → Store
unfolding expire_campaigns
expire_frozen now s = expire_campaigns now (select (is_expired now) s.campaigns) s

-- What the queue says of the job of a recipient: none, one that has ended, or one that lives; and
-- whether it takes a new one.
pub data JobState : Type 0 where
  absent finished alive : JobState

abbrev is_alive : JobState → Bool
is_alive alive = true
is_alive _ = false

abbrev is_queued : RecipientState → Bool
is_queued RecipientState.queued = true
is_queued _ = false

abbrev pub delivery_of : ℕ → Store → Option Delivery
delivery_of recipient s = find (λ d. d.recipient_id == recipient) s.deliveries

abbrev pub is_due : Store → Recipient → Bool
is_due s p =
    is_queued p.state
    && some_and (delivery_of p.id s) (λ d. true)
    && some_and (campaign? p.campaign_id s) (λ c. is_active c.state)

abbrev new_entry : Recipient → Delivery → OutboxEntry
new_entry p d = record {
  recipient_id = p.id;
  campaign_id = p.campaign_id;
  delivery_id = d.id;
  state = OutboxState.pending;
  last_error = none;
}

abbrev pub ensure_entry : Recipient → Delivery → Store → Store
ensure_entry p d s = record s { outbox = upsert (is_entry p.id) (λ e. e) (new_entry p d) s.outbox }

abbrev pub is_waiting_entry : ℕ → Store → Bool
is_waiting_entry recipient s =
    some_and (find (is_entry recipient) s.outbox) (λ e. is_waiting e.state)

abbrev mark_entry : ℕ → OutboxState → Option String → Store → Store
mark_entry recipient state error s = record s {
  outbox =
      update_where (λ e. is_entry recipient e && is_waiting e.state)
        (λ e. record e { state = state; last_error = error }) s.outbox;
}

-- What is left of an entry's turn, on the error of `queue.add`, if it throws.
abbrev pub mark_added : Option String → ℕ → Store → Store
mark_added none recipient s = mark_entry recipient OutboxState.enqueued none s
mark_added (some error) recipient s = mark_entry recipient OutboxState.pending (some error) s

abbrev pub enqueue_waiting : Bool → Option String → ℕ → Store → Store
enqueue_waiting true added recipient s = mark_added added recipient s
enqueue_waiting false added recipient s = s

abbrev pub is_enqueued : JobState → ℕ → Store → Bool
is_enqueued job recipient s = is_waiting_entry recipient s && not (is_alive job)

-- One turn of the loop over the due recipients, on what the queue answers. Nothing interrupts the
-- sweep, so the recipient is still queued when its entry is marked.
unfoldable pub enqueue : JobState → Option String → Recipient → Option Delivery → Store → Store
enqueue job added p none s = s
enqueue job added p (some d) s =
    let ensured = ensure_entry p d s in
    enqueue_waiting (is_enqueued job p.id ensured) added p.id ensured

unfoldable pub enqueue_all : (ℕ → JobState) → (ℕ → Option String) → List Recipient → Store → Store
unfolding enqueue
enqueue_all job added [] s = s
enqueue_all job added (p ∷ ps) s =
    enqueue_all job added ps (enqueue (job p.id) (added p.id) p (delivery_of p.id s) s)

unfoldable pub maintenance_sweep : (ℕ → JobState) → (ℕ → Option String) → ℕ → ℕ → Store → Store
unfolding close_ended expire_frozen enqueue_all
maintenance_sweep job added batch now s =
    let swept = expire_frozen now (close_ended s) in
    enqueue_all job added (take batch (select (is_due swept) swept.recipients)) swept
