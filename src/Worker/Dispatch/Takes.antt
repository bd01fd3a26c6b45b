-- ===== src/Worker/Dispatch/Takes.antt =====
-- What reserveDispatchSlot and the operator do to the claimable deliveries.
use tiktok_outreach.Prelude.{
  ℕ, ◌≡◌, ◌⊎◌, inl, inr, refl, sym, ap, ◌∙◌, subst, String, true, false, Option, none, some, arith,
  ◌==◌, or_else, Option-cases, Bool-cases,
}
use tiktok_outreach.Outreach.Control.{
  pause, resume, cancel, unsent_ids, cancel_recipients, is_cancellable, quota_recovery,
}
use tiktok_outreach.Worker.Dispatch.Rows.{
  Campaign, Delivery, Recipient, Store, Snapshot, is_delivery, is_claimable, is_active, campaign?,
  recipient?, delivery?,
}
use tiktok_outreach.Worker.Dispatch.Reserve.{
  ExclusionReason, claimed, unclaimed, excluded, exclusion, reading, decide, dispatch, exclude,
  excluded_delivery, reserve_with, reserve_dispatch_slot,
}
use tiktok_outreach.Worker.Dispatch.Claim.{answer, answer_claimed, reserve_answers}
use tiktok_outreach.Worker.Dispatch.Effect.{
  unclaimable_lem, reserve-Read, answer_excluded, claim_effect,
}
use tiktok_outreach.Worker.Dispatch.Claimable.{claimable_in, Shuts, update-Shuts, update_other}

module _ (r : Snapshot) (now : ℕ) (shop_date : String → ℕ → ℕ) (s s' : Store) where
  -- A claim takes a claimable delivery, which is not claimable then.
  pub claimed_takes :
      (n : ℕ)
      → reserve_dispatch_slot r now shop_date s ≡ some (s', claimed n)
      → (claimable_in r.delivery.id s.deliveries ≡ true)
        × (claimable_in r.delivery.id s'.deliveries ≡ false)
  claimed_takes n h =
      let claim = claim_effect r now shop_date s s' n h in
      (
        elim (Bool-cases (is_claimable claim.delivery.state)) [
          | inl e ↦ rw claim.delivery_before e
          | inr e ↦
              let no : (s', claimed n) ≡ (s, unclaimed) =
                unclaimable_lem r now shop_date s claim.delivery (s', claimed n)
                  claim.delivery_before e h in
              cc
        ],
        rw claim.delivery_after (ap is_claimable claim.delivery_dispatching),
      )

  pub claimed_other :
      (n id : ℕ)
      → reserve_dispatch_slot r now shop_date s ≡ some (s', claimed n)
      → (r.delivery.id == id) ≡ false
      → claimable_in id s'.deliveries ≡ claimable_in id s.deliveries
  unfolding dispatch
  claimed_other n id h other =
      let read = reserve-Read r now shop_date s s' (claimed n) refl h in
      let stored =
        (answer_claimed r now shop_date s read.campaign read.delivery read.recipient s' n
          read.answered).0 in
      ap (λ t. claimable_in id t.deliveries) stored
      ∙ update_other id s.deliveries r.delivery.id _ (λ d. refl) other

  pub excluded-Shuts :
      (id : ℕ) (reason : ExclusionReason)
      → reserve_dispatch_slot r now shop_date s ≡ some (s', excluded reason)
      → Shuts id s.deliveries s'.deliveries
  unfolding exclude
  excluded-Shuts id reason h =
      let read = reserve-Read r now shop_date s s' (excluded reason) refl h in
      let stored =
        answer_excluded r now shop_date s read.campaign read.delivery read.recipient s' reason
          read.answered in
      subst (λ t. Shuts id s.deliveries t.deliveries) (sym stored)
        (update-Shuts id s.deliveries (is_delivery read.delivery.id) (excluded_delivery reason)
          (λ d. refl) (λ d k. cc))

  answer_unclaimed :
      (c : Campaign) (d : Delivery) (p : Recipient)
      → answer r now shop_date s c d p ≡ (s', unclaimed)
      → s' ≡ s
  unfolding decide
  answer_unclaimed c d p h = elim (Bool-cases (is_claimable d.state)) [
    | inl e ↦ elim (Bool-cases (is_active c.state)) [
      | inl g ↦ elim (Option-cases (exclusion r now (reading r now c d p s))) [
        | inl k ↦ ground arith
        | inr (reason, k) ↦ ground arith
      ]
      | inr g ↦ ground arith
    ]
    | inr e ↦ ground arith
  ]

  pub unclaimed-same : reserve_dispatch_slot r now shop_date s ≡ some (s', unclaimed) → s' ≡ s
  unfolding reserve_dispatch_slot reserve_with
  unclaimed-same h = elim (Option-cases (campaign? r.recipient.campaign_id s)) [
    | inl e ↦ ground arith
    | inr (c, hc) ↦ elim (Option-cases (delivery? r.delivery.id s)) [
      | inl e ↦ ground arith
      | inr (d, hd) ↦ elim (Option-cases (recipient? r.recipient.id s)) [
        | inl e ↦ ground arith
        | inr (p, hp) ↦
            answer_unclaimed c d p
              (ground (arith, reserve_answers r now shop_date s c d p hc hd hp))
      ]
    ]
  ]

-- What holds of the database before a refused call and after an accepted one.
or_else_lem :
    (P : Store → Type 0) (s : Store) (o : Option Store)
    → P s
    → ((s' : Store) → o ≡ some s' → P s')
    → P (or_else o s)
or_else_lem P s none before accepted = before
or_else_lem P s (some s') before accepted = accepted s' refl

module _ (id campaign : ℕ) (s : Store) where
  pause_deliveries : (s' : Store) → pause campaign s ≡ some s' → s'.deliveries ≡ s.deliveries
  unfolding pause
  pause_deliveries s' h = elim (Option-cases (campaign? campaign s)) [
    | inl e ↦ ground arith
    | inr (c, e) ↦ ground arith
  ]

  resume_deliveries : (s' : Store) → resume campaign s ≡ some s' → s'.deliveries ≡ s.deliveries
  unfolding resume
  resume_deliveries s' h = elim (Option-cases (campaign? campaign s)) [
    | inl e ↦ ground arith
    | inr (c, e) ↦ elim (Bool-cases (quota_recovery c)) [
      | inl g ↦ ground arith
      | inr g ↦ ground arith
    ]
  ]

  cancelled_deliveries :
      (s' : Store)
      → cancel campaign s ≡ some s'
      → (s'.deliveries ≡ s.deliveries)
        ⊎ (s'.deliveries ≡ (cancel_recipients (unsent_ids campaign s) s).deliveries)
  unfolding cancel
  cancelled_deliveries s' h = elim (Option-cases (campaign? campaign s)) [
    | inl e ↦ ground arith
    | inr (c, e) ↦ elim (Bool-cases (is_cancellable c.state)) [
      | inl g ↦ inr (ground arith)
      | inr g ↦ inl (ground arith)
    ]
  ]

  cancelled-Shuts : Shuts id s.deliveries (cancel_recipients (unsent_ids campaign s) s).deliveries
  unfolding cancel_recipients
  cancelled-Shuts = update-Shuts id s.deliveries _ _ (λ d. refl) (λ d k. cc)

  pub pause-Shuts : Shuts id s.deliveries (or_else (pause campaign s) s).deliveries
  pause-Shuts =
      or_else_lem (λ t. Shuts id s.deliveries t.deliveries) s (pause campaign s) (λ k. k)
        (λ s' h. subst (Shuts id s.deliveries) (sym (pause_deliveries s' h)) (λ k. k))

  pub resume-Shuts : Shuts id s.deliveries (or_else (resume campaign s) s).deliveries
  resume-Shuts =
      or_else_lem (λ t. Shuts id s.deliveries t.deliveries) s (resume campaign s) (λ k. k)
        (λ s' h. subst (Shuts id s.deliveries) (sym (resume_deliveries s' h)) (λ k. k))

  pub cancel-Shuts : Shuts id s.deliveries (or_else (cancel campaign s) s).deliveries
  cancel-Shuts =
      or_else_lem (λ t. Shuts id s.deliveries t.deliveries) s (cancel campaign s) (λ k. k)
        (λ s' h. elim (cancelled_deliveries s' h) [
          | inl e ↦ subst (Shuts id s.deliveries) (sym e) (λ k. k)
          | inr e ↦ subst (Shuts id s.deliveries) (sym e) cancelled-Shuts
        ])
