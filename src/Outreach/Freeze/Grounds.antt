-- ===== src/Outreach/Freeze/Grounds.antt =====
-- The grounds on which a freeze excludes a recipient, as facts of the tables, and that the reason of
-- freeze (apps/api/src/outreach/outreach.service.ts) is theirs.
use tiktok_outreach.Prelude.{
  ℕ, ◌+◌, ◌*◌, ◌≡◌, refl, ap, ◌∙◌, Bool, true, false, not, ◌&&◌, ◌||◌, List, [], ◌∷◌, Option, none,
  some, arith, ◌==◌, ltb, leb, any, some_and, is_some,
}
use tiktok_outreach.Worker.Dispatch.Rows.{
  Campaign, Recipient, Contact, Reservation, Store, contact?,
}
use tiktok_outreach.Outreach.Freeze.{
  FreezeReason, do_not_contact, delivery_unknown, cooldown, contacted_by_app, active_reservation,
  contact_reason, freeze_reason,
}

-- What the tables say of a recipient's creator: contact is forbidden, an earlier delivery is
-- unresolved, the last contact lies within the cooldown, it was the program's, and a reservation of
-- the shop holds.
pub record Facts : Type 0 where
  pub forbids : Bool
  pub unresolved : Bool
  pub recent : Bool
  pub by_program : Bool
  pub reserved : Bool

abbrev pub contact_facts : ℕ → ℕ → Option Contact → Bool → Facts
contact_facts days now o reserved = record {
  forbids = some_and o (λ k. k.do_not_contact);
  unresolved = some_and o (λ k. k.unresolved_delivery);
  recent = some_and o (λ k. some_and k.last_contacted_at (λ t. ltb now (t + days * 86400000)));
  by_program = some_and o (λ k. is_some k.last_campaign_id);
  reserved = reserved;
}

abbrev pub facts_of : Campaign → ℕ → Store → Recipient → Facts
facts_of c now s p = contact_facts c.cooldown_days now (contact? c.shop_id p.creator_id s) (
    any (λ v. v.shop_id == c.shop_id && v.creator_id == p.creator_id && ltb now v.expires_at)
      s.reservations)

-- The facts that a reason stands for.
abbrev pub grounds : FreezeReason → Facts → Bool
grounds do_not_contact x = x.forbids
grounds delivery_unknown x = x.unresolved && not x.forbids
grounds contacted_by_app x = x.by_program && x.recent && not (x.forbids || x.unresolved)
grounds cooldown x = x.recent && not (x.by_program || x.forbids || x.unresolved)
grounds active_reservation x = x.reserved && not (x.forbids || x.unresolved || x.recent)

abbrev pub is_free : Facts → Bool
is_free x = not (x.forbids || x.unresolved || x.recent || x.reserved)

abbrev pub is_reason : FreezeReason → FreezeReason → Bool
is_reason do_not_contact do_not_contact = true
is_reason delivery_unknown delivery_unknown = true
is_reason cooldown cooldown = true
is_reason contacted_by_app contacted_by_app = true
is_reason active_reservation active_reservation = true
is_reason r q = false

abbrev pub is_none : Option FreezeReason → Bool
is_none none = true
is_none (some r) = false

later : (a b : ℕ) → not (leb a b) ≡ ltb b a
later a b = ground arith

any-later :
    (shop creator now : ℕ) (vs : List Reservation)
    → any (λ v. v.shop_id == shop && v.creator_id == creator && not (leb v.expires_at now)) vs
      ≡ any (λ v. v.shop_id == shop && v.creator_id == creator && ltb now v.expires_at) vs
any-later shop creator now [] = refl
any-later shop creator now (v ∷ vs) =
    rw (later v.expires_at now) (rw (any-later shop creator now vs) refl)

contact_reason-grounds :
    (r : FreezeReason) (c : Campaign) (now : ℕ) (o : Option Contact) (reserved : Bool)
    → some_and (contact_reason c now o reserved) (is_reason r)
      ≡ grounds r (contact_facts c.cooldown_days now o reserved)
unfolding contact_reason
contact_reason-grounds do_not_contact c now none false = refl
contact_reason-grounds do_not_contact c now none true = refl
contact_reason-grounds delivery_unknown c now none false = refl
contact_reason-grounds delivery_unknown c now none true = refl
contact_reason-grounds cooldown c now none false = refl
contact_reason-grounds cooldown c now none true = refl
contact_reason-grounds contacted_by_app c now none false = refl
contact_reason-grounds contacted_by_app c now none true = refl
contact_reason-grounds active_reservation c now none false = refl
contact_reason-grounds active_reservation c now none true = refl
contact_reason-grounds do_not_contact c now (some k) reserved = ground arith
contact_reason-grounds delivery_unknown c now (some k) reserved = ground arith
contact_reason-grounds cooldown c now (some k) reserved = ground arith
contact_reason-grounds contacted_by_app c now (some k) reserved = ground arith
contact_reason-grounds active_reservation c now (some k) reserved = ground arith

contact_reason_free :
    (c : Campaign) (now : ℕ) (o : Option Contact) (reserved : Bool)
    → is_none (contact_reason c now o reserved)
      ≡ is_free (contact_facts c.cooldown_days now o reserved)
unfolding contact_reason
contact_reason_free c now none false = refl
contact_reason_free c now none true = refl
contact_reason_free c now (some k) reserved = ground arith

module _ (c : Campaign) (now : ℕ) (s : Store) (p : Recipient) where
  -- A recipient has a reason exactly where the facts are that reason's grounds.
  pub freeze_reason-grounds :
      (r : FreezeReason)
      → some_and (freeze_reason c now s p) (is_reason r) ≡ grounds r (facts_of c now s p)
  unfolding freeze_reason
  freeze_reason-grounds r =
      contact_reason-grounds r c now (contact? c.shop_id p.creator_id s) _
      ∙ ap
          (λ b. grounds r (contact_facts c.cooldown_days now (contact? c.shop_id p.creator_id s) b))
          (any-later c.shop_id p.creator_id now s.reservations)

  pub freeze_reason_free : is_none (freeze_reason c now s p) ≡ is_free (facts_of c now s p)
  unfolding freeze_reason
  freeze_reason_free =
      contact_reason_free c now (contact? c.shop_id p.creator_id s) _
      ∙ ap (λ b. is_free (contact_facts c.cooldown_days now (contact? c.shop_id p.creator_id s) b))
          (any-later c.shop_id p.creator_id now s.reservations)

pub is_reason_refl : (r : FreezeReason) → is_reason r r ≡ true
is_reason_refl do_not_contact = refl
is_reason_refl delivery_unknown = refl
is_reason_refl cooldown = refl
is_reason_refl contacted_by_app = refl
is_reason_refl active_reservation = refl
