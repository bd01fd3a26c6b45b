-- ===== src/CreatorDatabase/Scheduler/Overlap.antt =====
-- followerOverlapWeight of creator-scheduler.ts: the share of an observed range of followers that
-- lies in a target range, as a fraction of two counts of followers.
use tiktok_outreach.Prelude.{
  ℕ, suc, ◌+◌, ◌-◌, min, max, ◌≤◌, ◌<◌, ◌≡◌, ◌⊎◌, inl, inr, refl, Option, none, some, arith, ◌==◌,
  ltb, if◌then◌else◌, or_else, Bool-cases,
}

pub record Share : Type 0 where
  pub part : ℕ
  pub whole : ℕ

abbrev nothing : Share
nothing = record { part = 0; whole = 1 }

abbrev overlap : ℕ → ℕ → ℕ → Share
overlap low high observed_width =
    if ltb high low then nothing else record { part = high - low + 1; whole = observed_width }

unfoldable pub follower_overlap_weight : Option ℕ → Option ℕ → Option ℕ → Option ℕ → Share
follower_overlap_weight none t o p = nothing
follower_overlap_weight (some lo) t none p = nothing
follower_overlap_weight (some lo) none (some from) none =
    if lo == from then record { part = 1; whole = 1 } else nothing
follower_overlap_weight (some lo) (some hi) (some from) none = nothing
follower_overlap_weight (some lo) t (some from) (some to) =
    overlap (max lo from) (min (or_else t to) to) (to - from + 1)

-- The weight is a proper share: never more than the whole, and the whole is not zero.
pub follower_overlap_weight_lem :
    (t u o p : Option ℕ)
    → ((follower_overlap_weight t u o p).part ≤ (follower_overlap_weight t u o p).whole)
      × (1 ≤ (follower_overlap_weight t u o p).whole)
unfolding follower_overlap_weight
follower_overlap_weight_lem none u o p = (omega arith, omega arith)
follower_overlap_weight_lem (some lo) u none p = (omega arith, omega arith)
follower_overlap_weight_lem (some lo) none (some from) none = elim (Bool-cases (lo == from)) [
  | inl e ↦ rw e (omega arith, omega arith)
  | inr e ↦ rw e (omega arith, omega arith)
]
follower_overlap_weight_lem (some lo) (some hi) (some from) none = (omega arith, omega arith)
follower_overlap_weight_lem (some lo) none (some from) (some to) = (ground arith, ground arith)
follower_overlap_weight_lem (some lo) (some hi) (some from) (some to) = (ground arith, ground arith)

overlap-part : (low high width : ℕ) → (overlap low high width).part ≡ suc high - low
overlap-part low high width = ground arith

overlap-whole :
    (low high width : ℕ)
    → ((overlap low high width).part ≡ 0) ⊎ ((overlap low high width).whole ≡ width)
overlap-whole low high width = elim (Bool-cases (ltb high low)) [
  | inl e ↦ rw e (inl refl)
  | inr e ↦ rw e (inr refl)
]

-- Of an observed range that is not empty, the parts that lie in two target ranges that meet, from
-- `lo` to `mid` and from there to `hi`, add up to the part that lies in their union: a split of a
-- partition neither loses nor doubles evidence. The parts count followers of the observed range, so
-- a weight that is not zero has the width of that range for its whole.
pub follower_overlap_weight-splits :
    (lo mid hi from to : ℕ)
    → lo ≤ mid
    → mid < hi
    → from ≤ to
    → ((follower_overlap_weight (some lo) (some mid) (some from) (some to)).part
          + (follower_overlap_weight (some (suc mid)) (some hi) (some from) (some to)).part
        ≡ (follower_overlap_weight (some lo) (some hi) (some from) (some to)).part)
      × (((follower_overlap_weight (some lo) (some hi) (some from) (some to)).part ≡ 0)
          ⊎ ((follower_overlap_weight (some lo) (some hi) (some from) (some to)).whole + from
              ≡ to + 1))
unfolding follower_overlap_weight
follower_overlap_weight-splits lo mid hi from to below above inside =
    let left = overlap-part (max lo from) (min mid to) (to - from + 1) in
    let right = overlap-part (max (suc mid) from) (min hi to) (to - from + 1) in
    let both = overlap-part (max lo from) (min hi to) (to - from + 1) in
    (
      rw (left, right, both) (omega arith),
      elim (overlap-whole (max lo from) (min hi to) (to - from + 1)) [
        | inl e ↦ inl e
        | inr e ↦ inr (rw e (omega arith))
      ],
    )
