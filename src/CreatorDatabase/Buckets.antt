-- ===== src/CreatorDatabase/Buckets.antt =====
-- The canonical buckets (packages/domain/src/index.ts) and their lookups
-- (apps/api/src/creator-database/marketplace-partitions.ts).
use tiktok_outreach.Prelude.{
  ℕ, suc, ◌≤◌, ◌<◌, ◌≡◌, inl, inr, refl, String, Bool, true, false, ◌&&◌, List, [], ◌∷◌, Option,
  none, some, str_eq, arith, ◌==◌, leb, find, is_some, some_and, count, Bool-cases, Option-cases,
}

pub record FollowerBucket : Type 0 where
  pub code : String
  pub min : ℕ
  pub max : Option ℕ

pub record GmvBucket : Type 0 where
  pub code : String
  pub label : String
  pub range : String
  pub min : ℕ
  pub max : Option ℕ

abbrev bucket : String → ℕ → ℕ → FollowerBucket
bucket code lo hi = record { code = code; min = lo; max = some hi }

abbrev pub creator_follower_buckets : List FollowerBucket
creator_follower_buckets =
    bucket "F01" 600 799
    ∷ bucket "F02" 800 999
    ∷ bucket "F03" 1000 1499
    ∷ bucket "F04" 1500 1999
    ∷ bucket "F05" 2000 2999
    ∷ bucket "F06" 3000 3999
    ∷ bucket "F07" 4000 4999
    ∷ bucket "F08" 5000 7499
    ∷ bucket "F09" 7500 9999
    ∷ bucket "F10" 10000 14999
    ∷ bucket "F11" 15000 24999
    ∷ bucket "F12" 25000 34999
    ∷ bucket "F13" 35000 49999
    ∷ bucket "F14" 50000 74999
    ∷ bucket "F15" 75000 99999
    ∷ bucket "F16" 100000 149999
    ∷ bucket "F17" 150000 249999
    ∷ bucket "F18" 250000 349999
    ∷ bucket "F19" 350000 499999
    ∷ bucket "F20" 500000 749999
    ∷ bucket "F21" 750000 999999
    ∷ bucket "F22" 1000000 1499999
    ∷ bucket "F23" 1500000 2499999
    ∷ bucket "F24" 2500000 4999999
    ∷ record { code = "F25"; min = 5000000; max = none }
    ∷ []

abbrev pub creator_gmv_buckets : List GmvBucket
creator_gmv_buckets =
    record { code = "G1"; label = "Low"; range = "GMV_RANGE_0_100"; min = 0; max = some 100 }
    ∷ record {
      code = "G2";
      label = "Medium";
      range = "GMV_RANGE_100_1000";
      min = 100;
      max = some 1000;
    }
    ∷ record {
      code = "G3";
      label = "High";
      range = "GMV_RANGE_1000_10000";
      min = 1000;
      max = some 10000;
    }
    ∷ record {
      code = "G4";
      label = "Very High";
      range = "GMV_RANGE_10000_AND_ABOVE";
      min = 10000;
      max = none;
    }
    ∷ []

abbrev pub creator_follower_hard_floor : ℕ
creator_follower_hard_floor = 600

abbrev pub covers : FollowerBucket → ℕ → Bool
covers b n = leb b.min n && (elim b.max [ none ↦ true | some hi ↦ leb n hi ])

unfoldable pub follower_bucket_for : ℕ → Option FollowerBucket
follower_bucket_for n = find (λ b. covers b n) creator_follower_buckets

abbrev is_bucket : Option String → GmvBucket → Bool
is_bucket code b = some_and code (λ c. str_eq b.code c)

unfoldable pub gmv_bucket_definition : Option String → Option GmvBucket
gmv_bucket_definition code = find (is_bucket code) creator_gmv_buckets

abbrev pub is_specific_gmv_bucket : Option String → Bool
is_specific_gmv_bucket code = is_some (gmv_bucket_definition code)

abbrev pub is_specific_gmv_partition : Option String → Option String → Bool
is_specific_gmv_partition code range =
    some_and (gmv_bucket_definition code) (λ b. some_and range (λ r. str_eq r b.range))

-- The buckets follow one another without a gap or an overlap, and the last is open.
abbrev follows : ℕ → List FollowerBucket → Bool
follows lo [] = false
follows lo (b ∷ bs) =
    b.min == lo && (elim b.max [ none ↦ is_end bs | some hi ↦ leb b.min hi && follows (suc hi) bs ])
  where
    is_end : List FollowerBucket → Bool
    is_end [] = true
    is_end (x ∷ xs) = false

canonical-follows : follows creator_follower_hard_floor creator_follower_buckets ≡ true
canonical-follows = refl

abbrev pub covering : ℕ → List FollowerBucket → ℕ
covering n bs = count (λ b. covers b n) bs

covering_below :
    (lo : ℕ) (bs : List FollowerBucket) (n : ℕ) → follows lo bs ≡ true → n < lo → covering n bs ≡ 0
covering_below lo [] n h below = refl
covering_below lo (b ∷ []) n h below = ground arith
covering_below lo (b ∷ c ∷ bs) n h below = elim (Option-cases b.max) [
  | inl e ↦ ground arith
  | inr (hi, e) ↦
      let rest : follows (suc hi) (c ∷ bs) ≡ true = ground arith in
      let below' : n < suc hi = ground arith in
      let none_there = covering_below (suc hi) (c ∷ bs) n rest below' in ground arith
]

covering_from :
    (lo : ℕ) (bs : List FollowerBucket) (n : ℕ) → follows lo bs ≡ true → lo ≤ n → covering n bs ≡ 1
covering_from lo [] n h above = cc
covering_from lo (b ∷ []) n h above = ground arith
covering_from lo (b ∷ c ∷ bs) n h above = elim (Option-cases b.max) [
  | inl e ↦ ground arith
  | inr (hi, e) ↦
      let rest : follows (suc hi) (c ∷ bs) ≡ true = ground arith in
      elim (Bool-cases (leb n hi)) [
        | inl inside ↦
            let below' : n < suc hi = ground arith in
            let none_there = covering_below (suc hi) (c ∷ bs) n rest below' in ground arith
        | inr outside ↦
            let above' : suc hi ≤ n = ground arith in
            let one_there = covering_from (suc hi) (c ∷ bs) n rest above' in ground arith
      ]
]

found_of_count {ℓ} :
    {A : Type ℓ} (p : A → Bool) (xs : List A)
    → count p xs ≡ 1
    → (a : A) × (find p xs ≡ some a) × (p a ≡ true)
found_of_count p [] h = ground arith
found_of_count p (x ∷ xs) h = elim (Bool-cases (p x)) [
  | inl e ↦ (x, rw e refl, e)
  | inr e ↦ let (a, g, k) = found_of_count p xs (ground arith) in (a, rw e g, k)
]

none_of_count {ℓ} : {A : Type ℓ} (p : A → Bool) (xs : List A) → count p xs ≡ 0 → find p xs ≡ none
none_of_count p [] h = refl
none_of_count p (x ∷ xs) h = elim (Bool-cases (p x)) [
  | inl e ↦ ground arith
  | inr e ↦ rw e (none_of_count p xs (ground arith))
]

-- The canonical follower buckets cut the counts from the floor of 600 on: followerBucketFor answers a
-- bucket whose limits hold the count, no second bucket holds it, and below the floor it answers
-- none.
pub buckets_partition :
    (n : ℕ)
    → ((creator_follower_hard_floor ≤ n)
        → (b : FollowerBucket) × (follower_bucket_for n ≡ some b)
          × (covers b n ≡ true)
          × (covering n creator_follower_buckets ≡ 1))
      × (n < creator_follower_hard_floor → follower_bucket_for n ≡ none)
unfolding follower_bucket_for
buckets_partition n = (
  λ above.
      let one =
        covering_from creator_follower_hard_floor creator_follower_buckets n canonical-follows
          above in
      let (b, found, holds) = found_of_count (λ b. covers b n) creator_follower_buckets one in
      (b, found, holds, one),
  λ below.
      none_of_count (λ b. covers b n) creator_follower_buckets
        (covering_below creator_follower_hard_floor creator_follower_buckets n canonical-follows
          below),
)
