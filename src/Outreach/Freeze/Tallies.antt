-- ===== src/Outreach/Freeze/Tallies.antt =====
-- How many recipients a freeze keeps, and excludes by each reason.
use tiktok_outreach.Prelude.{
  ℕ, suc, ◌+◌, ◌≡◌, refl, sym, subst, List, [], ◌∷◌, Option, none, some, arith, if◌then◌else◌,
  length, Bool, true, false, count, some_and,
}
use tiktok_outreach.Worker.Dispatch.Rows.{Campaign, Recipient}
use tiktok_outreach.Outreach.Results.{ok, ok_of_chain, ok_inj}
use tiktok_outreach.Outreach.Freeze.{
  Outside, FreezeReason, do_not_contact, delivery_unknown, cooldown, contacted_by_app,
  active_reservation, Exclusions, count_exclusion, total_exclusions, no_exclusions, Freezing,
  freeze_all,
}
use tiktok_outreach.Outreach.Freeze.Grounds.{is_reason, is_none}
use tiktok_outreach.Outreach.Freeze.Loop.{Turn, freeze_one-Turn}

total-count_exclusion :
    (r : FreezeReason) (x : Exclusions)
    → total_exclusions (count_exclusion r x) ≡ suc (total_exclusions x)
total-count_exclusion do_not_contact x = omega arith
total-count_exclusion delivery_unknown x = omega arith
total-count_exclusion cooldown x = omega arith
total-count_exclusion contacted_by_app x = omega arith
total-count_exclusion active_reservation x = omega arith

-- The recipients that a run has kept or excluded.
abbrev pub visited : Freezing → ℕ
visited f = f.final_selected + total_exclusions f.exclusions

module _ (w : Outside) (c : Campaign) (expires_at : ℕ) where
  Turn-visited :
      (index : ℕ) (r : Option FreezeReason) (p : Recipient) (f g : Freezing)
      → Turn w c expires_at index r p f g
      → visited g ≡ suc (visited f)
  Turn-visited index (some r) p f g h =
      subst (λ x. visited x ≡ suc (visited f)) (sym h)
        (omega (arith, total-count_exclusion r f.exclusions))
  Turn-visited index none p f g h =
      subst (λ x. visited x ≡ suc (visited f)) (sym h.result) (omega arith)

  pub freeze_all-visited :
      (reason : Recipient → Option FreezeReason) (index : ℕ) (ps : List Recipient) (f g : Freezing)
      → freeze_all w c expires_at reason index ps f ≡ ok g
      → visited g ≡ visited f + length ps
  unfolding freeze_all
  freeze_all-visited reason index [] f g h =
      subst (λ x. visited x ≡ visited f + 0) (ok_inj h) (omega arith)
  freeze_all-visited reason index (p ∷ ps) f g h =
      let (m, rest, hm) = ok_of_chain _ _ h in
      let here =
        Turn-visited index (reason p) p f m
          (freeze_one-Turn w c expires_at index (reason p) p f m hm) in
      omega (arith, here, freeze_all-visited reason (suc index) ps m g rest)

-- The recipients excluded for a reason.
abbrev pub tally : FreezeReason → Exclusions → ℕ
tally do_not_contact x = x.do_not_contact
tally delivery_unknown x = x.delivery_unknown
tally cooldown x = x.cooldown
tally contacted_by_app x = x.contacted_by_app
tally active_reservation x = x.active_reservation

tally-count_exclusion :
    (r q : FreezeReason) (x : Exclusions)
    → tally r (count_exclusion q x) ≡ (if is_reason r q then suc (tally r x) else tally r x)
tally-count_exclusion do_not_contact do_not_contact x = refl
tally-count_exclusion do_not_contact delivery_unknown x = refl
tally-count_exclusion do_not_contact cooldown x = refl
tally-count_exclusion do_not_contact contacted_by_app x = refl
tally-count_exclusion do_not_contact active_reservation x = refl
tally-count_exclusion delivery_unknown do_not_contact x = refl
tally-count_exclusion delivery_unknown delivery_unknown x = refl
tally-count_exclusion delivery_unknown cooldown x = refl
tally-count_exclusion delivery_unknown contacted_by_app x = refl
tally-count_exclusion delivery_unknown active_reservation x = refl
tally-count_exclusion cooldown do_not_contact x = refl
tally-count_exclusion cooldown delivery_unknown x = refl
tally-count_exclusion cooldown cooldown x = refl
tally-count_exclusion cooldown contacted_by_app x = refl
tally-count_exclusion cooldown active_reservation x = refl
tally-count_exclusion contacted_by_app do_not_contact x = refl
tally-count_exclusion contacted_by_app delivery_unknown x = refl
tally-count_exclusion contacted_by_app cooldown x = refl
tally-count_exclusion contacted_by_app contacted_by_app x = refl
tally-count_exclusion contacted_by_app active_reservation x = refl
tally-count_exclusion active_reservation do_not_contact x = refl
tally-count_exclusion active_reservation delivery_unknown x = refl
tally-count_exclusion active_reservation cooldown x = refl
tally-count_exclusion active_reservation contacted_by_app x = refl
tally-count_exclusion active_reservation active_reservation x = refl

-- What the tallies are once a run has visited the recipients.
abbrev Tallied : (Recipient → Option FreezeReason) → List Recipient → Freezing → Freezing → Type 0
Tallied reason ps f g =
    ((r : FreezeReason)
      → tally r g.exclusions
        ≡ tally r f.exclusions + count (λ p. some_and (reason p) (is_reason r)) ps)
    × (g.final_selected ≡ f.final_selected + count (λ p. is_none (reason p)) ps)

module _ (w : Outside) (c : Campaign) (expires_at : ℕ) where
  -- What a turn adds to the tallies.
  abbrev Adds : Option FreezeReason → Freezing → Freezing → Type 0
  Adds o f g =
      ((r : FreezeReason)
        → tally r g.exclusions
          ≡ (if some_and o (is_reason r) then suc (tally r f.exclusions) else tally r f.exclusions))
      × (g.final_selected ≡ (if is_none o then suc f.final_selected else f.final_selected))

  Turn-Adds :
      (index : ℕ) (o : Option FreezeReason) (p : Recipient) (f g : Freezing)
      → Turn w c expires_at index o p f g
      → Adds o f g
  Turn-Adds index (some q) p f g h =
      subst (Adds (some q) f) (sym h) (λ r. tally-count_exclusion r q f.exclusions, refl)
  Turn-Adds index none p f g h = subst (Adds none f) (sym h.result) (λ r. refl, refl)

  pub freeze_all-Tallied :
      (reason : Recipient → Option FreezeReason) (index : ℕ) (ps : List Recipient) (f g : Freezing)
      → freeze_all w c expires_at reason index ps f ≡ ok g
      → Tallied reason ps f g
  unfolding freeze_all
  freeze_all-Tallied reason index [] f g h =
      subst (Tallied reason [] f) (ok_inj h) (λ r. omega arith, omega arith)
  freeze_all-Tallied reason index (p ∷ ps) f g h =
      let (m, rest, hm) = ok_of_chain _ _ h in
      let here =
        Turn-Adds index (reason p) p f m
          (freeze_one-Turn w c expires_at index (reason p) p f m hm) in
      let after = freeze_all-Tallied reason (suc index) ps m g rest in
      (
        λ r. add_one (some_and (reason p) (is_reason r)) _ _ _ _ (here.0 r) (after.0 r),
        add_one (is_none (reason p)) _ _ _ _ here.1 after.1,
      )
    where
      add_one :
          (b : Bool) (before between after more : ℕ)
          → between ≡ (if b then suc before else before)
          → after ≡ between + more
          → after ≡ before + (if b then suc more else more)
      add_one true before between after more here rest = omega (arith, here, rest)
      add_one false before between after more here rest = omega (arith, here, rest)

pub from_nothing : (n : ℕ) → 0 + n ≡ n
from_nothing n = omega arith

pub started : (r : FreezeReason) (n : ℕ) → tally r no_exclusions + n ≡ n
started do_not_contact n = omega arith
started delivery_unknown n = omega arith
started cooldown n = omega arith
started contacted_by_app n = omega arith
started active_reservation n = omega arith
