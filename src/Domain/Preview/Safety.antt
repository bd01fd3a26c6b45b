-- ===== src/Domain/Preview/Safety.antt =====
-- Whom buildPreview never selects.
use tiktok_outreach.Prelude.{
  ℕ, zero, suc, ◌+◌, ◌*◌, ◌≤◌, ◌<◌, ◌≡◌, ◌≢◌, refl, subst, String, Bool, true, false, List, [], ◌∷◌,
  Option, some, none, arith, All, All-imp, get_elem?, eq_iff, Locale,
}
use tiktok_outreach.Prelude.Int.{pos}
use tiktok_outreach.Prelude.Sorting.{Each}
use tiktok_outreach.Domain.Creators.{CreatorCandidate, ContactState, SkipReason, EvaluatedCreator}
use tiktok_outreach.Domain.Filters.{matches_filters, contains_text}
use tiktok_outreach.Domain.Ranking.{Collates, ranked_before}
use tiktok_outreach.Domain.Preview.{
  PreviewInput, PreviewResult, day_ms, contact_skip, skip_reason, see, evaluated, evaluate,
  direction, preview, build_preview, build_preview-some,
}
use tiktok_outreach.Domain.Preview.Choice.{selected_entry, best_chosen}

-- A contact that forbids no message at `now`: the cooldown of so many days is over.
pub record IsClear (now days : ℕ) (s : ContactState) : Type 0 where
  pub allowed : s.do_not_contact ≡ false
  pub settled : s.unresolved_delivery ≡ false
  pub rested : (last : ℕ) → s.last_contacted_at ≡ some last → last + days * day_ms ≤ now

-- What has to hold of a creator before a message is planned.
pub record IsContactable (l : Locale) (input : PreviewInput) (days : ℕ) (c : CreatorCandidate)
    : Type 0 where
  pub addressed : c.creator_open_id ≢ ""
  pub matching : matches_filters l c input.filters ≡ true
  pub clear :
      (s : ContactState) → input.contacts c.creator_open_id ≡ some s → IsClear input.now days s
  pub unreserved : input.active_reservations c.creator_open_id ≡ false

contact_skip-IsClear :
    (now days : ℕ) (reserved : Bool) (s : ContactState)
    → contact_skip now days reserved (some s) ≡ none
    → IsClear now days s
unfolding contact_skip
contact_skip-IsClear now days reserved s h = record {
  allowed = ground arith;
  settled = ground arith;
  rested = λ last e. ground arith;
}

contact_skip-unreserved :
    (now days : ℕ) (reserved : Bool) (o : Option ContactState)
    → contact_skip now days reserved o ≡ none
    → reserved ≡ false
unfolding contact_skip
contact_skip-unreserved now days reserved none h = ground arith
contact_skip-unreserved now days reserved (some s) h = ground arith

module _ (l : Locale) (input : PreviewInput) (days : ℕ) where
  contact_reached :
      (seen : List String) (c : CreatorCandidate)
      → skip_reason l input days seen c ≡ none
      → contact_skip input.now days
          (input.active_reservations c.creator_open_id)
          (input.contacts c.creator_open_id)
        ≡ none
  unfolding skip_reason
  contact_reached seen c h = ground arith

  skip_reason-IsContactable :
      (seen : List String) (c : CreatorCandidate)
      → skip_reason l input days seen c ≡ none
      → IsContactable l input days c × (contains_text seen c.creator_open_id ≡ false)
  unfolding skip_reason
  skip_reason-IsContactable seen c h = (
    record {
      addressed = λ e. ground (arith, eq_iff c.creator_open_id "");
      matching = ground arith;
      clear = λ s e.
          contact_skip-IsClear input.now days (input.active_reservations c.creator_open_id) s (
            subst
              (λ o.
                contact_skip input.now days (input.active_reservations c.creator_open_id) o ≡ none)
              e (contact_reached seen c h));
      unreserved = contact_skip-unreserved input.now days _ _ (contact_reached seen c h);
    },
    ground arith,
  )

  -- The evaluated creators say what the ladder found, one for one.
  abbrev Judged : EvaluatedCreator → Type 0
  Judged e = e.is_eligible ≡ true → IsContactable l input days e.creator

  judged :
      (seen : List String) (c : CreatorCandidate) (r : Option SkipReason)
      → skip_reason l input days seen c ≡ r
      → (evaluated l input days c r).is_eligible ≡ true
      → IsContactable l input days c × (contains_text seen c.creator_open_id ≡ false)
  judged seen c none e h = skip_reason-IsContactable seen c e
  judged seen c (some r) e h = cc

  evaluate-Judged :
      (seen : List String) (cs : List CreatorCandidate) → All Judged (evaluate l input days seen cs)
  unfolding evaluate
  evaluate-Judged seen [] = tt
  evaluate-Judged seen (c ∷ cs) = (
    λ h. (judged seen c _ refl h).0,
    evaluate-Judged (see l input days c.creator_open_id seen) cs,
  )

  -- What `seen` holds is not eligible again.
  abbrev Unseen : List String → EvaluatedCreator → Type 0
  Unseen seen e = e.is_eligible ≡ true → contains_text seen e.creator.creator_open_id ≡ false

  Unseen-before :
      (id : String) (seen : List String) (e : EvaluatedCreator)
      → Unseen (see l input days id seen) e
      → Unseen seen e
  Unseen-before id seen e h k = ground (arith, h k)

  evaluate-Unseen :
      (seen : List String) (cs : List CreatorCandidate)
      → All (Unseen seen) (evaluate l input days seen cs)
  unfolding evaluate
  evaluate-Unseen seen [] = tt
  evaluate-Unseen seen (c ∷ cs) = (
    λ h. (judged seen c _ refl h).1,
    All-imp _ _ (Unseen-before c.creator_open_id seen) _
        (evaluate-Unseen (see l input days c.creator_open_id seen) cs),
  )

  abbrev Differ : EvaluatedCreator → EvaluatedCreator → Type 0
  Differ a b =
      a.is_eligible ≡ true
      → b.is_eligible ≡ true
      → a.creator.creator_open_id ≢ b.creator.creator_open_id

  later-Differ :
      (seen : List String) (c : CreatorCandidate) (r : Option SkipReason)
      → skip_reason l input days seen c ≡ r
      → (b : EvaluatedCreator) → Unseen (see l input days c.creator_open_id seen) b
      → Differ (evaluated l input days c r) b
  later-Differ seen c r e b u ha hb same =
      let addressed = (judged seen c r e ha).0.addressed in
      ground (
        arith,
        u hb,
        addressed,
        eq_iff c.creator_open_id "",
        eq_iff b.creator.creator_open_id c.creator_open_id,
      )

  evaluate-Differ :
      (seen : List String) (cs : List CreatorCandidate)
      → Each Differ (evaluate l input days seen cs)
  unfolding evaluate
  evaluate-Differ seen [] = tt
  evaluate-Differ seen (c ∷ cs) = (
    All-imp _ _ (later-Differ seen c _ refl) _
        (evaluate-Unseen (see l input days c.creator_open_id seen) cs),
    evaluate-Differ (see l input days c.creator_open_id seen) cs,
  )

abbrev AllGet {ℓ κ} : {A : Type ℓ} → (A → Type κ) → List A → Type (ℓ ⊔ κ)
AllGet {A} P xs = (i : ℕ) (a : A) → get_elem? xs i ≡ some a → P a

all_get {ℓ κ} : {A : Type ℓ} (P : A → Type κ) (xs : List A) → All P xs → AllGet P xs
all_get P [] h i a e = cc
all_get P (x ∷ xs) h zero a e = subst P (ground arith) h.0
all_get P (x ∷ xs) h (suc i) a e = all_get P xs h.1 i a e

each_get {ℓ κ} :
    {A : Type ℓ} (R : A → A → Type κ) (xs : List A)
    → Each R xs
    → (i j : ℕ) (a b : A) → i < j
    → get_elem? xs i ≡ some a
    → get_elem? xs j ≡ some b
    → R a b
each_get R [] h i j a b lt ea eb = cc
each_get R (x ∷ xs) h zero zero a b lt ea eb = absurd (omega arith)
each_get R (x ∷ xs) h zero (suc j) a b lt ea eb =
    subst (λ y. R y b) (ground arith) (all_get (R x) xs h.0 j b eb)
each_get R (x ∷ xs) h (suc i) zero a b lt ea eb = absurd (omega arith)
each_get R (x ∷ xs) h (suc i) (suc j) a b lt ea eb = each_get R xs h.1 i j a b (omega arith) ea eb

module _ (l : Locale) (input : PreviewInput) (r : PreviewResult)
    (built : build_preview l input ≡ some r) where
  -- Every creator that buildPreview selects may be contacted: it has a messaging ID and passes the
  -- filters, no contact state of it forbids messages, awaits a delivery or lies within the cooldown,
  -- and nobody reserves it. The cooldown asked for is then a natural number of days.
  pub selected-IsContactable :
      (i : ℕ) (e : EvaluatedCreator)
      → get_elem? r.creators i ≡ some e
      → e.selected ≡ true
      → (days : ℕ) × (input.cooldown_days ≡ pos days) × IsContactable l input days e.creator
  unfolding preview
  selected-IsContactable i e g s =
      let (days, d, p) = build_preview-some l input r built in
      let cs = evaluate l input days [] input.creators in
      let (c, gc, q, ok, _) =
        selected_entry l (direction input) cs input.requested i e (rw p at g) s in
      (
        days,
        d,
        rw q (all_get (Judged l input days) cs (evaluate-Judged l input days [] _) i c gc ok),
      )

  -- buildPreview selects no creator twice: two selected entries at different places of the result have
  -- different messaging IDs.
  pub selected_distinct :
      (i j : ℕ) (a b : EvaluatedCreator)
      → i < j
      → get_elem? r.creators i ≡ some a
      → get_elem? r.creators j ≡ some b
      → a.selected ≡ true
      → b.selected ≡ true
      → a.creator.creator_open_id ≢ b.creator.creator_open_id
  unfolding preview
  selected_distinct i j a b lt ga gb sa sb =
      let (days, _, p) = build_preview-some l input r built in
      let cs = evaluate l input days [] input.creators in
      let d = direction input in
      let (x, gx, qx, okx, _) = selected_entry l d cs input.requested i a (rw p at ga) sa in
      let (y, gy, qy, oky, _) = selected_entry l d cs input.requested j b (rw p at gb) sb in
      rw (qx, qy)
        (each_get (Differ l input days) cs (evaluate-Differ l input days [] _) i j x y lt gx gy okx
          oky)

  -- The selection is the best of what is eligible: if the collation is consistent, no selected creator
  -- comes after an eligible creator that is not selected, in the order of the ranking metric in the
  -- direction asked for and, where it is equal, of the messaging IDs.
  pub selected-ranked_before :
      Collates l
      → (i j : ℕ) (a b : EvaluatedCreator) → get_elem? r.creators i ≡ some a
      → a.selected ≡ true
      → get_elem? r.creators j ≡ some b
      → b.is_eligible ≡ true
      → b.selected ≡ false
      → ranked_before l (direction input) a b ≡ true
  unfolding preview
  selected-ranked_before laws i j a b ga sa gb eb sb =
      let (days, _, p) = build_preview-some l input r built in
      best_chosen l (direction input) (evaluate l input days [] input.creators) input.requested laws
        i j a b (rw p at ga) sa (rw p at gb) eb sb
