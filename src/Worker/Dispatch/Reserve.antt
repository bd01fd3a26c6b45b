-- ===== src/Worker/Dispatch/Reserve.antt =====
-- reserveDispatchSlot (apps/worker/src/dispatch-safety.ts): one transaction. The locks that it takes
-- only order the transactions, which the model takes one by one. `none` is a missing row: it throws.
use tiktok_outreach.Prelude.{
  ℕ, suc, String, Bool, true, false, not, ◌&&◌, List, ◌∷◌, Option, none, some, ◌==◌, leb,
  if◌then◌else◌, or_else, some_and,
}
use tiktok_outreach.Prelude.Tables.{update_where, delete_where, upsert}
use tiktok_outreach.Domain.Preview.{after_cutoff}
use tiktok_outreach.Worker.Dispatch.Rows.{
  CampaignState, RecipientState, DeliveryState, OutboxState, Campaign, Recipient, Delivery,
  Reservation, Contact, DailyUsage, AuditKind, Store, Snapshot, is_campaign, is_recipient,
  is_delivery, reserves, is_entry, campaign?, recipient?, delivery?, reservation?, contact?,
  refers_to, is_claimable, is_active,
}

pub data ExclusionReason : Type 0 where
  do_not_contact delivery_unknown reservation_invalid cooldown_changed : ExclusionReason

abbrev pub reason_text : ExclusionReason → String
reason_text do_not_contact = "DO_NOT_CONTACT"
reason_text delivery_unknown = "DELIVERY_UNKNOWN"
reason_text reservation_invalid = "RESERVATION_INVALID"
reason_text cooldown_changed = "COOLDOWN_CHANGED"

-- `SAFETY_${exclusionReason}`.
abbrev pub safety_code : ExclusionReason → String
safety_code do_not_contact = "SAFETY_DO_NOT_CONTACT"
safety_code delivery_unknown = "SAFETY_DELIVERY_UNKNOWN"
safety_code reservation_invalid = "SAFETY_RESERVATION_INVALID"
safety_code cooldown_changed = "SAFETY_COOLDOWN_CHANGED"

abbrev pub cancellation_text : ExclusionReason → String
cancellation_text do_not_contact = "Safety cancellation: DO_NOT_CONTACT"
cancellation_text delivery_unknown = "Safety cancellation: DELIVERY_UNKNOWN"
cancellation_text reservation_invalid = "Safety cancellation: RESERVATION_INVALID"
cancellation_text cooldown_changed = "Safety cancellation: COOLDOWN_CHANGED"

pub data DispatchClaim : Type 0 where
  claimed : ℕ → DispatchClaim
  unclaimed : DispatchClaim
  excluded : ExclusionReason → DispatchClaim

abbrev pub is_claimed : DispatchClaim → Bool
is_claimed (claimed n) = true
is_claimed unclaimed = false
is_claimed (excluded r) = false

-- The rows that the transaction reads.
pub record Reading : Type 0 where
  pub campaign : Campaign
  pub delivery : Delivery
  pub recipient : Recipient
  pub reservation : Option Reservation
  pub contact : Option Contact

abbrev pub excluded_delivery : ExclusionReason → Delivery → Delivery
excluded_delivery reason d = record d {
  state = DeliveryState.failed_terminal;
  last_error_code = some (safety_code reason);
}

abbrev pub excluded_recipient : ExclusionReason → Recipient → Recipient
excluded_recipient reason p = record p {
  state = RecipientState.cancelled;
  excluded = true;
  skip_reason = some (reason_text reason);
}

module _ (r : Snapshot) (now : ℕ) where
  -- The reservation exists, is not over, and is this recipient's in this campaign.
  abbrev pub is_reserved : Reading → Reservation → Bool
  is_reserved x v =
      not (leb v.expires_at now)
      && v.shop_id == x.campaign.shop_id
      && v.creator_id == r.recipient.creator_id
      && v.recipient_id == x.recipient.id
      && x.recipient.campaign_id == x.campaign.id

  abbrev pub is_unresolved_elsewhere : Reading → Contact → Bool
  is_unresolved_elsewhere x k =
      k.unresolved_delivery && not (refers_to k.last_delivery_id x.delivery.id)

  abbrev pub is_own_contact : Reading → Contact → Bool
  is_own_contact x k =
      refers_to k.last_campaign_id x.campaign.id && refers_to k.last_delivery_id x.delivery.id

  abbrev pub is_cooling : Reading → Contact → Bool
  is_cooling x k =
      not (is_own_contact x k)
      && some_and k.last_contacted_at (λ t. after_cutoff now x.campaign.cooldown_days t)

  unfoldable pub exclusion : Reading → Option ExclusionReason
  exclusion x =
      if some_and x.contact (λ k. k.do_not_contact)
      then some do_not_contact
      else if some_and x.contact (λ k. is_unresolved_elsewhere x k)
      then some delivery_unknown
      else if not (some_and x.reservation (λ v. is_reserved x v))
      then some reservation_invalid
      else if some_and x.contact (λ k. is_cooling x k)
      then some cooldown_changed
      else none

  unfoldable pub exclude : Reading → ExclusionReason → Store → Store
  exclude x reason s = record s {
    deliveries = update_where (is_delivery x.delivery.id) (excluded_delivery reason) s.deliveries;
    recipients =
        update_where (is_recipient x.recipient.id) (excluded_recipient reason) s.recipients;
    reservations = delete_where (reserves x.recipient.id) s.reservations;
    outbox =
        update_where (is_entry x.recipient.id)
          (λ e. record e {
            state = OutboxState.completed;
            last_error = some (cancellation_text reason);
          })
          s.outbox;
    audit =
        record {
          shop_id = x.campaign.shop_id;
          campaign_id = x.campaign.id;
          kind = AuditKind.recipient_cancelled_pre_dispatch;
        }
        ∷ s.audit;
  }

  -- `date` is what `shopDate` answers: the day in the shop's time zone.
  abbrev pub count_usage : ℕ → ℕ → List DailyUsage → List DailyUsage
  count_usage shop date usage =
      upsert (λ u. u.shop_id == shop && u.shop_date == date)
        (λ u. record u { dispatch_count = suc u.dispatch_count })
        (record { shop_id = shop; shop_date = date; dispatch_count = 1 }) usage

  abbrev pub dispatched_row : Reading → Delivery → Delivery
  dispatched_row x d = record d {
    state = DeliveryState.dispatching;
    first_dispatched_at = some (or_else x.delivery.first_dispatched_at now);
    last_attempted_at = some now;
    attempt_count = suc d.attempt_count;
  }

  unfoldable pub dispatch : ℕ → Reading → Store → Store
  dispatch date x s = record s {
    usage = count_usage x.campaign.shop_id date s.usage;
    dispatch_events =
        record {
          shop_id = x.campaign.shop_id;
          campaign_id = x.campaign.id;
          delivery_id = r.delivery.id;
          dispatched_at = now;
        }
        ∷ s.dispatch_events;
    campaigns =
        update_where (is_campaign x.campaign.id)
          (λ c. record c { dispatch_count = suc c.dispatch_count; state = CampaignState.running })
          s.campaigns;
    deliveries = update_where (is_delivery r.delivery.id) (dispatched_row x) s.deliveries;
    recipients =
        update_where (is_recipient r.recipient.id)
          (λ p. record p { state = RecipientState.processing }) s.recipients;
  }

  unfoldable pub decide : (String → ℕ → ℕ) → Reading → Store → Store × DispatchClaim
  unfolding exclusion exclude dispatch
  decide shop_date x s = elim (exclusion x) [
    | some reason ↦ (exclude x reason s, excluded reason)
    | none ↦
        (dispatch (shop_date x.campaign.timezone now) x s, claimed (suc x.delivery.attempt_count))
  ]

  abbrev pub reading : Campaign → Delivery → Recipient → Store → Reading
  reading c d p s = record {
    campaign = c;
    delivery = d;
    recipient = p;
    reservation = reservation? r.recipient.id s;
    contact = contact? c.shop_id r.recipient.creator_id s;
  }

  unfoldable pub reserve_with :
      (String → ℕ → ℕ) → Store → Campaign → Delivery → Option (Store × DispatchClaim)
  unfolding decide
  reserve_with shop_date s c d =
      if not (is_claimable d.state)
      then some (s, unclaimed)
      else if not (is_active c.state)
      then some (s, unclaimed)
      else elim (recipient? r.recipient.id s) [
        | none ↦ none
        | some p ↦ some (decide shop_date (reading c d p s) s)
      ]

  unfoldable pub reserve_dispatch_slot : (String → ℕ → ℕ) → Store → Option (Store × DispatchClaim)
  unfolding reserve_with
  reserve_dispatch_slot shop_date s = elim (campaign? r.recipient.campaign_id s) [
    | none ↦ none
    | some c ↦ elim (delivery? r.delivery.id s) [
      | none ↦ none
      | some d ↦ reserve_with shop_date s c d
    ]
  ]
