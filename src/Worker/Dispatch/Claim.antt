-- ===== src/Worker/Dispatch/Claim.antt =====
-- When reserveDispatchSlot claims a delivery, and what it does then.
use tiktok_outreach.Prelude.{
  ℕ, suc, ◌+◌, ◌*◌, ◌≤◌, ◌<◌, ◌≡◌, ◌↔◌, ◌⊎◌, inl, inr, refl, sym, ap, ◌∙◌, String, Bool, true,
  false, not, Option, none, some, arith, if◌then◌else◌, some_and, Option-cases, Bool-cases,
}
use tiktok_outreach.Domain.Preview.{day_ms}
use tiktok_outreach.Worker.Dispatch.Rows.{
  Campaign, Recipient, Delivery, Reservation, Contact, Store, Snapshot, campaign?, recipient?,
  delivery?, refers_to, is_claimable, is_active,
}
use tiktok_outreach.Worker.Dispatch.Reserve.{
  DispatchClaim, claimed, unclaimed, is_claimed, Reading, is_reserved, is_unresolved_elsewhere,
  is_cooling, exclusion, reading, decide, dispatch, reserve_with, reserve_dispatch_slot,
}

refers_to_iff : (o : Option ℕ) (n : ℕ) → (refers_to o n ≡ true) ↔ (o ≡ some n)
refers_to_iff none n = ground arith
refers_to_iff (some m) n = ground arith

module _ (r : Snapshot) (now : ℕ) (x : Reading) where
  -- The four conditions, as statements on the rows.
  abbrev pub Contactable : Contact → Type 0
  Contactable k = k.do_not_contact ≡ false

  -- An unresolved delivery is this one.
  abbrev pub Resolved : Contact → Type 0
  Resolved k = k.unresolved_delivery ≡ true → k.last_delivery_id ≡ some x.delivery.id

  abbrev pub Reserved : Reservation → Type 0
  Reserved v =
      (now < v.expires_at)
      × (v.shop_id ≡ x.campaign.shop_id)
      × (v.creator_id ≡ r.recipient.creator_id)
      × (v.recipient_id ≡ x.recipient.id)
      × (x.recipient.campaign_id ≡ x.campaign.id)

  -- The last contact is this delivery's own, or the cooldown after it is over.
  abbrev pub Cooled : Contact → Type 0
  Cooled k =
      (t : ℕ)
      → k.last_contacted_at ≡ some t
      → ((k.last_campaign_id ≡ some x.campaign.id) × (k.last_delivery_id ≡ some x.delivery.id))
        ⊎ (t + x.campaign.cooldown_days * day_ms ≤ now)

  is_reserved_iff : (v : Reservation) → (is_reserved r now x v ≡ true) ↔ Reserved v
  is_reserved_iff v = (λ h. ground arith, λ h. ground arith)

  unresolved_iff : (k : Contact) → (is_unresolved_elsewhere r now x k ≡ false) ↔ Resolved k
  unresolved_iff k = (
    λ h u. ground (arith, refers_to_iff k.last_delivery_id x.delivery.id),
    λ h. ground (arith, refers_to_iff k.last_delivery_id x.delivery.id),
  )

  cooling_iff : (k : Contact) → (is_cooling r now x k ≡ false) ↔ Cooled k
  cooling_iff k = (
    λ h t e. ground (
      arith,
      refers_to_iff k.last_delivery_id x.delivery.id,
      refers_to_iff k.last_campaign_id x.campaign.id,
    ),
    λ h. elim (Option-cases k.last_contacted_at) [
      | inl e ↦ ground arith
      | inr (t, e) ↦
          let cooled = h t e in
          ground (
            arith,
            refers_to_iff k.last_delivery_id x.delivery.id,
            refers_to_iff k.last_campaign_id x.campaign.id,
          )
    ],
  )

-- The conditions under which a message may be dispatched.
pub record IsSafe (r : Snapshot) (now : ℕ) (x : Reading) : Type 0 where
  pub contactable : (k : Contact) → x.contact ≡ some k → Contactable r now x k
  pub resolved : (k : Contact) → x.contact ≡ some k → Resolved r now x k
  pub reserved : (v : Reservation) × (x.reservation ≡ some v) × Reserved r now x v
  pub cooled : (k : Contact) → x.contact ≡ some k → Cooled r now x k

-- `optional?.field`: a test on an optional row fails where it fails on every row there is.
none_and_iff {ℓ} :
    {A : Type ℓ} (o : Option A) (p : A → Bool)
    → (some_and o p ≡ false) ↔ ((a : A) → o ≡ some a → p a ≡ false)
none_and_iff none p = (λ h a e. cc, λ h. refl)
none_and_iff (some a) p = (λ h b e. ap p (sym (ground arith)) ∙ h, λ h. h a refl)

some_and_iff {ℓ} :
    {A : Type ℓ} (o : Option A) (p : A → Bool)
    → (some_and o p ≡ true) ↔ ((a : A) × (o ≡ some a) × (p a ≡ true))
some_and_iff none p = (λ h. cc, λ (a, e, h). cc)
some_and_iff (some a) p = (λ h. (a, refl, h), λ (b, e, h). ap p (ground arith) ∙ h)

module _ (r : Snapshot) (now : ℕ) (x : Reading) where
  exclusion_tests : (exclusion r now x ≡ none) ↔ (
      (some_and x.contact (λ k. k.do_not_contact) ≡ false)
      × (some_and x.contact (λ k. is_unresolved_elsewhere r now x k) ≡ false)
      × (some_and x.reservation (λ v. is_reserved r now x v) ≡ true)
      × (some_and x.contact (λ k. is_cooling r now x k) ≡ false))
  unfolding exclusion
  exclusion_tests = (λ h. ground arith, λ h. ground arith)

  pub exclusion-IsSafe : (exclusion r now x ≡ none) ↔ IsSafe r now x
  exclusion-IsSafe = (
    λ h.
        let tests = exclusion_tests.0 h in
        let (v, e, reserved) =
          (some_and_iff x.reservation (λ v. is_reserved r now x v)).0 tests.2 in
        record {
          contactable = (none_and_iff x.contact (λ k. k.do_not_contact)).0 tests.0;
          resolved = λ k e.
              (unresolved_iff r now x k).0
                ((none_and_iff x.contact (λ k. is_unresolved_elsewhere r now x k)).0 tests.1 k e);
          reserved = (v, e, (is_reserved_iff r now x v).0 reserved);
          cooled = λ k e.
              (cooling_iff r now x k).0
                ((none_and_iff x.contact (λ k. is_cooling r now x k)).0 tests.3 k e);
        },
    λ safe.
        let (v, e, reserved) = safe.reserved in
        exclusion_tests.1 (
          (none_and_iff x.contact (λ k. k.do_not_contact)).1 safe.contactable,
          (none_and_iff x.contact (λ k. is_unresolved_elsewhere r now x k)).1
              (λ k e. (unresolved_iff r now x k).1 (safe.resolved k e)),
          (some_and_iff x.reservation (λ v. is_reserved r now x v)).1
              (v, e, (is_reserved_iff r now x v).1 reserved),
          (none_and_iff x.contact (λ k. is_cooling r now x k)).1
              (λ k e. (cooling_iff r now x k).1 (safe.cooled k e)),
        ),
  )

module _ (r : Snapshot) (now : ℕ) (shop_date : String → ℕ → ℕ) (s : Store) where
  -- What the transaction answers where the three rows exist.
  abbrev pub answer : Campaign → Delivery → Recipient → Store × DispatchClaim
  answer c d p =
      if not (is_claimable d.state)
      then (s, unclaimed)
      else if not (is_active c.state)
      then (s, unclaimed)
      else decide r now shop_date (reading r now c d p s) s

  pub reserve_answers :
      (c : Campaign) (d : Delivery) (p : Recipient)
      → campaign? r.recipient.campaign_id s ≡ some c
      → delivery? r.delivery.id s ≡ some d
      → recipient? r.recipient.id s ≡ some p
      → reserve_dispatch_slot r now shop_date s ≡ some (answer c d p)
  unfolding reserve_dispatch_slot reserve_with
  reserve_answers c d p hc hd hp =
      rw (hc, reserve_dispatch_slot)
        (rw (hd, reserve_with)
          (elim (Bool-cases (is_claimable d.state)) [
            | inl e ↦ rw e (elim (Bool-cases (is_active c.state)) [
              | inl g ↦ rw g (rw hp refl)
              | inr g ↦ rw g refl
            ])
            | inr e ↦ rw e refl
          ]))

  decide_claims :
      (x : Reading) → (is_claimed (decide r now shop_date x s).1 ≡ true) ↔ IsSafe r now x
  unfolding decide
  decide_claims x = elim (Option-cases (exclusion r now x)) [
    | inl e ↦ rw (e, decide) (λ h. (exclusion-IsSafe r now x).0 e, λ safe. refl)
    | inr (reason, e) ↦
        rw (e, decide) (λ h. cc, λ safe. cc (sym e ∙ (exclusion-IsSafe r now x).1 safe))
  ]

  answer_claims :
      (c : Campaign) (d : Delivery) (p : Recipient)
      → (is_claimed (answer c d p).1 ≡ true) ↔ (
          (is_claimable d.state ≡ true)
          × (is_active c.state ≡ true)
          × IsSafe r now (reading r now c d p s))
  answer_claims c d p = elim (Bool-cases (is_claimable d.state)) [
    | inl e ↦ elim (Bool-cases (is_active c.state)) [
      | inl g ↦ rw e (
          rw g (
            λ h. (refl, refl, (decide_claims (reading r now c d p s)).0 h),
            λ h. (decide_claims (reading r now c d p s)).1 h.2,
          ))
      | inr g ↦ rw e (rw g (λ h. cc, λ h. cc h.1))
    ]
    | inr e ↦ rw e (λ h. cc, λ h. cc h.0)
  ]

  -- Where the campaign, the delivery and the recipient exist, reserveDispatchSlot answers, and it
  -- claims the delivery exactly where the delivery is PENDING or FAILED_RETRYABLE, the campaign is
  -- QUEUED or RUNNING, the creator may be contacted, has no other unresolved delivery, is reserved
  -- for this recipient, and has no contact in the cooldown but this delivery's own.
  pub reserve-IsSafe :
      (c : Campaign) (d : Delivery) (p : Recipient)
      → campaign? r.recipient.campaign_id s ≡ some c
      → delivery? r.delivery.id s ≡ some d
      → recipient? r.recipient.id s ≡ some p
      → (result : Store × DispatchClaim) × (reserve_dispatch_slot r now shop_date s ≡ some result)
        × ((is_claimed result.1 ≡ true) ↔ (
            (is_claimable d.state ≡ true)
            × (is_active c.state ≡ true)
            × IsSafe r now (reading r now c d p s)))
  reserve-IsSafe c d p hc hd hp =
      (answer c d p, reserve_answers c d p hc hd hp, answer_claims c d p)

  -- A claim is the answer of the last branch alone.
  pub answer_claimed :
      (c : Campaign) (d : Delivery) (p : Recipient) (s' : Store) (n : ℕ)
      → answer c d p ≡ (s', claimed n)
      → (s' ≡ dispatch r now (shop_date c.timezone now) (reading r now c d p s) s)
        × (n ≡ suc d.attempt_count)
  unfolding decide
  answer_claimed c d p s' n h = elim (Bool-cases (is_claimable d.state)) [
    | inl e ↦ elim (Bool-cases (is_active c.state)) [
      | inl g ↦ elim (Option-cases (exclusion r now (reading r now c d p s))) [
        | inl k ↦ ground arith
        | inr (reason, k) ↦ ground arith
      ]
      | inr g ↦ ground arith
    ]
    | inr e ↦ ground arith
  ]
