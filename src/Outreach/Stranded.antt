-- ===== src/Outreach/Stranded.antt =====
-- What a cancellation does to a recipient whose message is being dispatched
-- (apps/api/src/outreach/outreach.service.ts and apps/worker/src/main.ts).
use tiktok_outreach.Prelude.{
  ℕ, suc, ◌≡◌, inl, inr, refl, sym, ◌∙◌, subst, some_inj, String, true, false, some, arith, find,
  Option-cases, Bool-cases, ==_iff,
}
use tiktok_outreach.Prelude.Tables.{update_where, find-update_found, find-delete_other, find_passed}
use tiktok_outreach.Outreach.Control.{
  cancel, cancel_recipients, cancel_campaign, unsent_ids, is_in, is_cancellable,
}
use tiktok_outreach.Worker.Dispatch.Rows.{
  CampaignState, Campaign, Store, Snapshot, is_campaign, reserves, campaign?, reservation?,
  delivery?, is_claimable,
}
use tiktok_outreach.Worker.Dispatch.Reserve.{
  DispatchClaim, unclaimed, reserve_with, reserve_dispatch_slot,
}
use tiktok_outreach.Worker.Dispatch.Settle.{make_delivery_retryable}

abbrev cancelled_row : Campaign → Campaign
cancelled_row c = record c { state = CampaignState.cancelled; version = suc c.version }

module _ (s : Store) (c : Campaign) (campaign : ℕ) where
  cancel_answers :
      campaign? campaign s ≡ some c
      → is_cancellable c.state ≡ true
      → cancel campaign s ≡ some (cancel_campaign c (cancel_recipients (unsent_ids campaign s) s))
  unfolding cancel
  cancel_answers hc open_still = rw (hc, cancel) (rw open_still refl)

  reservation_stays :
      (recipient : ℕ)
      → is_in (unsent_ids campaign s) recipient ≡ false
      → reservation? recipient (cancel_campaign c (cancel_recipients (unsent_ids campaign s) s))
        ≡ reservation? recipient s
  unfolding cancel_recipients
  reservation_stays recipient out =
      find-delete_other (reserves recipient) (λ v. is_in (unsent_ids campaign s) v.recipient_id)
        s.reservations
        (λ v h.
          subst (λ k. is_in (unsent_ids campaign s) k ≡ false)
            (sym ((==_iff v.recipient_id recipient).0 h)) out)

  campaign_after :
      campaign? campaign s ≡ some c
      → campaign? campaign (cancel_campaign c (cancel_recipients (unsent_ids campaign s) s))
        ≡ some (cancelled_row c)
  unfolding cancel_recipients
  campaign_after hc =
      subst
        (λ k.
          find (is_campaign campaign) (update_where (is_campaign k) cancelled_row s.campaigns)
          ≡ some (cancelled_row c))
        (sym ((==_iff c.id campaign).0 (find_passed (is_campaign campaign) s.campaigns c hc)))
        (find-update_found (is_campaign campaign) cancelled_row (λ d. refl) s.campaigns c hc)

-- A recipient of a cancelled campaign is not claimed.
cancelled-unclaimed :
    (t : Store) (c : Campaign) (r : Snapshot) (now : ℕ) (shop_date : String → ℕ → ℕ)
    (result : Store × DispatchClaim)
    → campaign? r.recipient.campaign_id t ≡ some (cancelled_row c)
    → reserve_dispatch_slot r now shop_date t ≡ some result
    → result ≡ (t, unclaimed)
unfolding reserve_dispatch_slot reserve_with
cancelled-unclaimed t c r now shop_date result hc h =
    elim (Option-cases (delivery? r.delivery.id t)) [
      | inl e ↦ ground arith
      | inr (d, hd) ↦ elim (Bool-cases (is_claimable d.state)) [
        | inl g ↦ ground arith
        | inr g ↦ ground arith
      ]
    ]

cancelled-cancel :
    (t : Store) (c : Campaign) (campaign : ℕ)
    → campaign? campaign t ≡ some (cancelled_row c)
    → cancel campaign t ≡ some t
unfolding cancel
cancelled-cancel t c campaign hc = rw (hc, cancel) refl

-- The recipient's reservation of `s` is still there after its delivery's return in `s'`, from where
-- no worker claims the delivery and a cancellation changes nothing.
abbrev pub Stranded : Store → Snapshot → String → Store → Type 0
Stranded s r code s' =
    (reservation? r.recipient.id (make_delivery_retryable r code s')
      ≡ reservation? r.recipient.id s)
    × ((now : ℕ) (shop_date : String → ℕ → ℕ) (result : Store × DispatchClaim)
        → reserve_dispatch_slot r now shop_date (make_delivery_retryable r code s') ≡ some result
        → result ≡ (make_delivery_retryable r code s', unclaimed))
    × (cancel r.recipient.campaign_id (make_delivery_retryable r code s')
        ≡ some (make_delivery_retryable r code s'))

-- cancel releases only the recipients that are RESERVED or QUEUED. Where a worker is sending the
-- message of another recipient when the campaign is cancelled, and then returns the delivery for
-- a retry, this recipient's reservation is as it was before the cancellation. On the tables as the
-- return leaves them no worker claims the delivery, at whatever instant, and a further cancel changes
-- nothing.
pub cancel_strands :
    (s s' : Store) (c : Campaign) (r : Snapshot) (code : String)
    → campaign? r.recipient.campaign_id s ≡ some c
    → is_cancellable c.state ≡ true
    → is_in (unsent_ids r.recipient.campaign_id s) r.recipient.id ≡ false
    → cancel r.recipient.campaign_id s ≡ some s'
    → Stranded s r code s'
unfolding make_delivery_retryable
cancel_strands s s' c r code hc open_still out h =
    let campaign = r.recipient.campaign_id in
    let t = cancel_campaign c (cancel_recipients (unsent_ids campaign s) s) in
    let same : s' ≡ t = some_inj (sym h ∙ cancel_answers s c campaign hc open_still) in
    let after : campaign? campaign (make_delivery_retryable r code t) ≡ some (cancelled_row c) =
      campaign_after s c campaign hc in
    subst (Stranded s r code) (sym same) (
      reservation_stays s c campaign r.recipient.id out,
      λ now shop_date result k.
          cancelled-unclaimed (make_delivery_retryable r code t) c r now shop_date result after k,
      cancelled-cancel (make_delivery_retryable r code t) c campaign after,
    )
