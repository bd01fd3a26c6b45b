-- ===== src/CreatorDatabase/Ranges.antt =====
-- Splitting a range of followers (apps/api/src/creator-database/marketplace-partitions.ts). A yield is
-- the fraction of two counts, compared exactly; the source compares their quotient as a double.
use tiktok_outreach.Prelude.{
  ℕ, suc, ◌+◌, ◌-◌, ◌*◌, ◌/◌, ◌≤◌, ◌<◌, ◌≡◌, ◌↔◌, ◌⊎◌, inl, inr, sym, ap, ◌∙◌, subst, some_inj,
  Bool, true, false, ◌||◌, Option, none, some, arith, ◌==◌, leb, ltb, if◌then◌else◌, is_some,
  Bool-cases,
}
use tiktok_outreach.CreatorDatabase.Buckets.{creator_follower_hard_floor}

pub record Range : Type 0 where
  pub min : ℕ
  pub max : ℕ

-- FollowerWidthRules.
pub record WidthRules : Type 0 where
  pub from600 : ℕ
  pub from1000 : ℕ
  pub from10000 : ℕ
  pub from100000 : ℕ
  pub from1000000 : ℕ

abbrev pub default_follower_width_rules : WidthRules
default_follower_width_rules = record {
  from600 = 50;
  from1000 = 100;
  from10000 = 1000;
  from100000 = 10000;
  from1000000 = 100000;
}

abbrev pub default_first_split_min_width : ℕ
default_first_split_min_width = 500

unfoldable pub inclusive_follower_width : ℕ → Option ℕ → Option ℕ
inclusive_follower_width lo none = none
inclusive_follower_width lo (some hi) =
    if ltb lo creator_follower_hard_floor || ltb hi lo then none else some (hi - lo + 1)

abbrev halves : ℕ → ℕ → Range × Range
halves lo hi =
    let mid = (lo + hi) / 2 in (record { min = lo; max = mid }, record { min = mid + 1; max = hi })

unfoldable pub binary_follower_range : ℕ → Option ℕ → Option (Range × Range)
unfolding inclusive_follower_width
binary_follower_range lo none = none
binary_follower_range lo (some hi) = elim (inclusive_follower_width lo (some hi)) [
  | none ↦ none
  | some width ↦ if ltb width 2 then none else some (halves lo hi)
]

unfoldable pub first_exploratory_follower_split : ℕ → Option ℕ → ℕ → Option (Range × Range)
unfolding inclusive_follower_width binary_follower_range
first_exploratory_follower_split lo hi minimum_width = elim (inclusive_follower_width lo hi) [
  | none ↦ none
  | some width ↦ if leb minimum_width width then binary_follower_range lo hi else none
]

unfoldable pub minimum_follower_width : ℕ → WidthRules → ℕ
minimum_follower_width lo rules =
    if leb 1000000 lo
    then rules.from1000000
    else if leb 100000 lo
    then rules.from100000
    else if leb 10000 lo
    then rules.from10000
    else if leb 1000 lo
    then rules.from1000
    else rules.from600

unfoldable pub split_follower_range : ℕ → Option ℕ → WidthRules → Option (Range × Range)
unfolding inclusive_follower_width minimum_follower_width binary_follower_range
split_follower_range lo hi rules = elim (inclusive_follower_width lo hi) [
  | none ↦ none
  | some width ↦
      if ltb width (minimum_follower_width lo rules * 2) then none else binary_follower_range lo hi
]

-- A count of creators out of a count of rows or pages.
pub record Rate : Type 0 where
  pub count : ℕ
  pub total : ℕ

-- `total ? count / total : 0` is at least `hundredths` in a hundred.
unfoldable pub at_least : Rate → ℕ → Bool
at_least r hundredths =
    if r.total == 0 then hundredths == 0 else leb (hundredths * r.total) (r.count * 100)

abbrev pub default_deep_split_min_incremental_yield : ℕ
default_deep_split_min_incremental_yield = 10

unfoldable pub deeper_follower_split :
    ℕ → Option ℕ → Option Rate → WidthRules → ℕ → Option (Range × Range)
unfolding split_follower_range at_least
deeper_follower_split lo hi yield rules minimum = elim yield [
  | none ↦ none
  | some r ↦ if at_least r minimum then split_follower_range lo hi rules else none
]

abbrev pub width_of : Range → ℕ
width_of r = suc r.max - r.min

abbrev pub Within : Range → ℕ → Type 0
Within r n = (r.min ≤ n) × (n ≤ r.max)

-- What a split of the range from `lo` to `hi` is: two ranges, none of them empty, that follow one
-- another and hold its counts and no other.
pub record IsSplit (lo hi : ℕ) (l r : Range) : Type 0 where
  pub holds : (n : ℕ) → ((lo ≤ n) × (n ≤ hi)) ↔ (Within l n ⊎ Within r n)
  pub apart : l.max < r.min
  pub left : l.min ≤ l.max
  pub right : r.min ≤ r.max
  pub widths : width_of l + width_of r ≡ suc hi - lo
  pub balanced : (width_of l ≤ suc (width_of r)) × (width_of r ≤ suc (width_of l))

halves-IsSplit : (lo hi : ℕ) → lo < hi → IsSplit lo hi (halves lo hi).0 (halves lo hi).1
halves-IsSplit lo hi h = record {
  holds = λ n. (λ h. ground arith, λ h. ground arith);
  apart = omega arith;
  left = omega arith;
  right = omega arith;
  widths = omega arith;
  balanced = (omega arith, omega arith);
}

-- The ranges that may be split: closed, from the hard floor on, and wide enough.
abbrev pub Splittable : ℕ → ℕ → ℕ → Type 0
Splittable lo hi width = (creator_follower_hard_floor ≤ lo) × (lo < hi) × (width ≤ suc hi - lo)

binary_closed :
    (lo hi : ℕ)
    → ((Splittable lo hi 2) × (binary_follower_range lo (some hi) ≡ some (halves lo hi)))
      ⊎ ((Splittable lo hi 2 → false ≡ true) × (binary_follower_range lo (some hi) ≡ none))
unfolding binary_follower_range inclusive_follower_width
binary_closed lo hi = elim (Bool-cases (ltb lo creator_follower_hard_floor || ltb hi lo)) [
  | inl e ↦ inr (λ h. ground arith, ground arith)
  | inr e ↦ elim (Bool-cases (ltb (hi - lo + 1) 2)) [
    | inl g ↦ inr (λ h. ground arith, ground arith)
    | inr g ↦ inl (ground arith, ground arith)
  ]
]

abbrev minimum_for : ℕ → WidthRules → ℕ
minimum_for lo rules = minimum_follower_width lo rules * 2

split_closed :
    (lo hi : ℕ) (rules : WidthRules)
    → ((Splittable lo hi (minimum_for lo rules))
        × (split_follower_range lo (some hi) rules ≡ some (halves lo hi)))
      ⊎ ((Splittable lo hi (minimum_for lo rules) → false ≡ true)
          × (split_follower_range lo (some hi) rules ≡ none))
unfolding split_follower_range inclusive_follower_width
split_closed lo hi rules = elim (binary_closed lo hi) [
  | inl (fits, e) ↦ elim (Bool-cases (ltb (hi - lo + 1) (minimum_for lo rules))) [
    | inl g ↦ inr (λ h. ground arith, ground arith)
    | inr g ↦ inl (ground arith, ground arith)
  ]
  | inr (no_fit, e) ↦ inr (
    λ h. no_fit (ground arith),
    elim (Bool-cases (ltb (hi - lo + 1) (minimum_for lo rules))) [
      | inl g ↦ ground arith
      | inr g ↦ ground arith
    ],
  )
]

halves_wide :
    (lo hi m : ℕ)
    → Splittable lo hi (m * 2)
    → (m ≤ width_of (halves lo hi).0) × (m ≤ width_of (halves lo hi).1)
halves_wide lo hi m fits = (omega (arith, fits.1, fits.2), omega (arith, fits.1, fits.2))

-- splitFollowerRange of a range from `lo` to `hi` answers exactly where the range lies above the
-- hard floor and holds two counts and twice the least width for `lo`. The two ranges of an answer
-- split it: they hold its counts and no other, none twice, differ by one count at most, and each
-- is as wide as the least width.
pub split_follower_range_lem :
    (lo hi : ℕ) (rules : WidthRules)
    → ((is_some (split_follower_range lo (some hi) rules) ≡ true)
        ↔ Splittable lo hi (minimum_follower_width lo rules * 2))
      × ((l r : Range)
          → split_follower_range lo (some hi) rules ≡ some (l, r)
          → IsSplit lo hi l r
            × (minimum_follower_width lo rules ≤ width_of l)
            × (minimum_follower_width lo rules ≤ width_of r))
split_follower_range_lem lo hi rules = elim (split_closed lo hi rules) [
  | inl (fits, e) ↦ (
    (λ h. fits, λ h. ap is_some e),
    λ l r h.
        let (wide_l, wide_r) = halves_wide lo hi (minimum_follower_width lo rules) fits in
        subst
          (λ q.
            IsSplit lo hi q.0 q.1
            × (minimum_follower_width lo rules ≤ width_of q.0)
            × (minimum_follower_width lo rules ≤ width_of q.1))
          (some_inj (sym e ∙ h)) (halves-IsSplit lo hi fits.1, wide_l, wide_r),
  )
  | inr (no_fit, e) ↦ (
    (λ h. ground arith, λ h. let no = no_fit h in cc),
    λ l r h. let no : none ≡ some (l, r) = sym e ∙ h in cc,
  )
]
