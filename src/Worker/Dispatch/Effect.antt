-- ===== src/Worker/Dispatch/Effect.antt =====
-- What reserveDispatchSlot leaves in the database, on each of its branches.
use tiktok_outreach.Prelude.{
  ℕ, suc, ◌≡◌, inl, inr, refl, sym, ap, ◌∙◌, subst, String, Bool, true, false, ◌∷◌, none, some,
  arith, or_else, find, Option-cases, Bool-cases, ==_iff,
}
use tiktok_outreach.Prelude.Tables.{
  update_where, delete_where, find-update_found, find-delete_where, find_passed,
}
use tiktok_outreach.Worker.Dispatch.Rows.{
  CampaignState, RecipientState, DeliveryState, Campaign, Recipient, Delivery, Store, Snapshot,
  is_recipient, is_campaign, is_delivery, campaign?, recipient?, delivery?, reservation?,
  is_claimable, is_active, reserves,
}
use tiktok_outreach.Worker.Dispatch.Reserve.{
  ExclusionReason, DispatchClaim, claimed, unclaimed, excluded, is_claimed, Reading, exclusion,
  reading, decide, dispatch, dispatched_row, excluded_delivery, excluded_recipient, exclude,
  reserve_with, safety_code, reserve_dispatch_slot,
}
use tiktok_outreach.Worker.Dispatch.Claim.{answer, reserve_answers, answer_claimed}

abbrev running_row : Campaign → Campaign
running_row c = record c { dispatch_count = suc c.dispatch_count; state = CampaignState.running }

module _ (r : Snapshot) (now : ℕ) (shop_date : String → ℕ → ℕ) (s : Store) where
  -- The rows that a claim or an exclusion has read.
  pub record Read (s' : Store) (claim : DispatchClaim) : Type 0 where
    pub campaign : Campaign
    pub delivery : Delivery
    pub recipient : Recipient
    pub campaign_read : campaign? r.recipient.campaign_id s ≡ some campaign
    pub delivery_read : delivery? r.delivery.id s ≡ some delivery
    pub recipient_read : recipient? r.recipient.id s ≡ some recipient
    pub answered : answer r now shop_date s campaign delivery recipient ≡ (s', claim)

  abbrev is_unclaimed : DispatchClaim → Bool
  is_unclaimed unclaimed = true
  is_unclaimed (claimed n) = false
  is_unclaimed (excluded reason) = false

  -- The state of a delivery that may not be dispatched leaves the database as it is.
  pub unclaimable_lem :
      (d : Delivery) (result : Store × DispatchClaim)
      → delivery? r.delivery.id s ≡ some d
      → is_claimable d.state ≡ false
      → reserve_dispatch_slot r now shop_date s ≡ some result
      → result ≡ (s, unclaimed)
  unfolding reserve_dispatch_slot reserve_with
  unclaimable_lem d result hd shut h = elim (Option-cases (campaign? r.recipient.campaign_id s)) [
    | inl e ↦ ground arith
    | inr (c, hc) ↦ ground arith
  ]

  pub reserve-Read :
      (s' : Store) (claim : DispatchClaim)
      → is_unclaimed claim ≡ false
      → reserve_dispatch_slot r now shop_date s ≡ some (s', claim)
      → Read s' claim
  unfolding reserve_dispatch_slot reserve_with
  reserve-Read s' claim decided h = elim (Option-cases (campaign? r.recipient.campaign_id s)) [
    | inl e ↦ ground arith
    | inr (c, hc) ↦ elim (Option-cases (delivery? r.delivery.id s)) [
      | inl e ↦ ground arith
      | inr (d, hd) ↦ elim (Option-cases (recipient? r.recipient.id s)) [
        | inl e ↦ ground arith
        | inr (p, hp) ↦ record {
          campaign = c;
          delivery = d;
          recipient = p;
          campaign_read = hc;
          delivery_read = hd;
          recipient_read = hp;
          answered = ground (arith, reserve_answers r now shop_date s c d p hc hd hp);
        }
      ]
    ]
  ]

  dispatched :
      (x : Reading) (date : ℕ) (d : Delivery)
      → delivery? r.delivery.id s ≡ some d
      → delivery? r.delivery.id (dispatch r now date x s) ≡ some (dispatched_row r now x d)
  unfolding dispatch
  dispatched x date d hd =
      find-update_found (is_delivery r.delivery.id) (dispatched_row r now x) (λ d. refl)
        s.deliveries d hd

  -- What a claim with the attempt number `n` leaves in the database: the rows that it changes, field
  -- by field, and the tables that it does not touch.
  pub record Claims (s' : Store) (n : ℕ) : Type 0 where
    pub campaign : Campaign
    pub campaign' : Campaign
    pub delivery : Delivery
    pub delivery' : Delivery
    pub recipient : Recipient
    pub recipient' : Recipient
    pub campaign_before : campaign? r.recipient.campaign_id s ≡ some campaign
    pub campaign_after : campaign? r.recipient.campaign_id s' ≡ some campaign'
    pub campaign_running : campaign'.state ≡ CampaignState.running
    pub campaign_counted : campaign'.dispatch_count ≡ suc campaign.dispatch_count
    pub campaign_version : campaign'.version ≡ campaign.version
    pub delivery_before : delivery? r.delivery.id s ≡ some delivery
    pub delivery_after : delivery? r.delivery.id s' ≡ some delivery'
    pub delivery_dispatching : delivery'.state ≡ DeliveryState.dispatching
    pub delivery_counted : delivery'.attempt_count ≡ suc delivery.attempt_count
    pub number : n ≡ suc delivery.attempt_count
    pub first : delivery'.first_dispatched_at ≡ some (or_else delivery.first_dispatched_at now)
    pub last : delivery'.last_attempted_at ≡ some now
    pub recipient_before : recipient? r.recipient.id s ≡ some recipient
    pub recipient_after : recipient? r.recipient.id s' ≡ some recipient'
    pub recipient_processing : recipient'.state ≡ RecipientState.processing
    pub recipient_message : recipient'.frozen_message ≡ recipient.frozen_message
    pub event :
        s'.dispatch_events
        ≡ record {
          shop_id = campaign.shop_id;
          campaign_id = campaign.id;
          delivery_id = r.delivery.id;
          dispatched_at = now;
        }
          ∷ s.dispatch_events
    pub reservations : s'.reservations ≡ s.reservations
    pub contacts : s'.contacts ≡ s.contacts
    pub outbox : s'.outbox ≡ s.outbox

  -- A claim by reserveDispatchSlot makes the campaign RUNNING with one dispatch more, the recipient
  -- PROCESSING and the delivery DISPATCHING, counts the attempt whose number it answers, keeps the
  -- instant of a first dispatch, records the dispatch, and changes no reservation, contact or entry.
  pub claim_effect :
      (s' : Store) (n : ℕ)
      → reserve_dispatch_slot r now shop_date s ≡ some (s', claimed n)
      → Claims s' n
  unfolding dispatch
  claim_effect s' n h =
      let read = reserve-Read s' (claimed n) refl h in
      let c = read.campaign in
      let (stored, number) =
        answer_claimed r now shop_date s c read.delivery read.recipient s' n read.answered in
      let x = reading r now c read.delivery read.recipient s in
      let same_c : c.id ≡ r.recipient.campaign_id =
        (==_iff c.id r.recipient.campaign_id).0
          (find_passed (is_campaign r.recipient.campaign_id) s.campaigns c read.campaign_read) in
      record {
        campaign = c;
        campaign' = record c {
          dispatch_count = suc c.dispatch_count;
          state = CampaignState.running;
        };
        delivery = read.delivery;
        delivery' = dispatched_row r now x read.delivery;
        recipient = read.recipient;
        recipient' = record (read.recipient) { state = RecipientState.processing };
        campaign_before = read.campaign_read;
        campaign_after =
            ap (campaign? r.recipient.campaign_id) stored
            ∙ subst
                (λ id.
                  find (is_campaign r.recipient.campaign_id)
                    (update_where (is_campaign id) running_row s.campaigns)
                  ≡ some (running_row c))
                (sym same_c)
                (find-update_found (is_campaign r.recipient.campaign_id) running_row (λ d. refl)
                  s.campaigns c read.campaign_read);
        campaign_running = refl;
        campaign_counted = refl;
        campaign_version = refl;
        delivery_before = read.delivery_read;
        delivery_after =
            ap (delivery? r.delivery.id) stored
            ∙ dispatched x (shop_date c.timezone now) read.delivery read.delivery_read;
        delivery_dispatching = refl;
        delivery_counted = refl;
        number = number;
        first = refl;
        last = refl;
        recipient_before = read.recipient_read;
        recipient_after =
            ap (recipient? r.recipient.id) stored
            ∙ find-update_found (is_recipient r.recipient.id)
                (λ p. record p { state = RecipientState.processing }) (λ p. refl) s.recipients
                read.recipient read.recipient_read;
        recipient_processing = refl;
        recipient_message = refl;
        event = ap (λ t. t.dispatch_events) stored;
        reservations = ap (λ t. t.reservations) stored;
        contacts = ap (λ t. t.contacts) stored;
        outbox = ap (λ t. t.outbox) stored;
      }

  pub answer_excluded :
      (c : Campaign) (d : Delivery) (p : Recipient) (s' : Store) (reason : ExclusionReason)
      → answer r now shop_date s c d p ≡ (s', excluded reason)
      → s' ≡ exclude r now (reading r now c d p s) reason s
  unfolding decide
  answer_excluded c d p s' reason h = elim (Bool-cases (is_claimable d.state)) [
    | inl e ↦ elim (Bool-cases (is_active c.state)) [
      | inl g ↦ elim (Option-cases (exclusion r now (reading r now c d p s))) [
        | inl k ↦ ground arith
        | inr (reason, k) ↦ ground arith
      ]
      | inr g ↦ ground arith
    ]
    | inr e ↦ ground arith
  ]

  -- An exclusion by reserveDispatchSlot ends the delivery as FAILED_TERMINAL with the safety code of
  -- its reason, cancels and excludes the recipient for this reason, and releases its reservation.
  pub exclude_effect :
      (s' : Store) (reason : ExclusionReason)
      → reserve_dispatch_slot r now shop_date s ≡ some (s', excluded reason)
      → (d' : Delivery) × (p' : Recipient) × (delivery? r.delivery.id s' ≡ some d')
        × (d'.state ≡ DeliveryState.failed_terminal)
        × (d'.last_error_code ≡ some (safety_code reason))
        × (recipient? r.recipient.id s' ≡ some p')
        × (p'.state ≡ RecipientState.cancelled)
        × (p'.excluded ≡ true)
        × (reservation? r.recipient.id s' ≡ none)
        × (s'.dispatch_events ≡ s.dispatch_events)
  unfolding exclude
  exclude_effect s' reason h =
      let read = reserve-Read s' (excluded reason) refl h in
      let d = read.delivery in
      let p = read.recipient in
      let same_d : d.id ≡ r.delivery.id =
        (==_iff d.id r.delivery.id).0
          (find_passed (is_delivery r.delivery.id) s.deliveries d read.delivery_read) in
      let same_p : p.id ≡ r.recipient.id =
        (==_iff p.id r.recipient.id).0
          (find_passed (is_recipient r.recipient.id) s.recipients p read.recipient_read) in
      let stored = answer_excluded read.campaign d p s' reason read.answered in
      (
        excluded_delivery reason d,
        excluded_recipient reason p,
        ap (delivery? r.delivery.id) stored
            ∙ subst
                (λ id.
                  find (is_delivery r.delivery.id)
                    (update_where (is_delivery id) (excluded_delivery reason) s.deliveries)
                  ≡ some (excluded_delivery reason d))
                (sym same_d)
                (find-update_found (is_delivery r.delivery.id) (excluded_delivery reason)
                  (λ d. refl) s.deliveries d read.delivery_read),
        refl,
        refl,
        ap (recipient? r.recipient.id) stored
            ∙ subst
                (λ id.
                  find (is_recipient r.recipient.id)
                    (update_where (is_recipient id) (excluded_recipient reason) s.recipients)
                  ≡ some (excluded_recipient reason p))
                (sym same_p)
                (find-update_found (is_recipient r.recipient.id) (excluded_recipient reason)
                  (λ p. refl) s.recipients p read.recipient_read),
        refl,
        refl,
        ap (reservation? r.recipient.id) stored
            ∙ subst
                (λ id.
                  find (reserves r.recipient.id) (delete_where (reserves id) s.reservations) ≡ none)
                (sym same_p) (find-delete_where (reserves r.recipient.id) s.reservations),
        rw stored refl,
      )

-- After a claim by reserveDispatchSlot no other call, by any worker at any instant, claims the
-- delivery in the database that the claim has left.
pub claim_once :
    (r : Snapshot) (now : ℕ) (shop_date : String → ℕ → ℕ) (s s' : Store) (n : ℕ) (r' : Snapshot)
    (now' : ℕ) (result : Store × DispatchClaim)
    → reserve_dispatch_slot r now shop_date s ≡ some (s', claimed n)
    → r'.delivery.id ≡ r.delivery.id
    → reserve_dispatch_slot r' now' shop_date s' ≡ some result
    → (is_claimed result.1 ≡ false) × (result.0 ≡ s')
claim_once r now shop_date s s' n r' now' result h same again =
    let first = claim_effect r now shop_date s s' n h in
    let e =
      unclaimable_lem r' now' shop_date s' first.delivery' result
        (ap (λ id. delivery? id s') same ∙ first.delivery_after)
        (ap is_claimable first.delivery_dispatching) again in
    (ap (λ a. is_claimed a.1) e, ap (λ a. a.0) e)
