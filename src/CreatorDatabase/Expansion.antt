-- ===== src/CreatorDatabase/Expansion.antt =====
-- adaptiveExpansion and the grades of a branch
-- (apps/api/src/creator-database/marketplace-partitions.ts).
use tiktok_outreach.Prelude.{
  ℕ, ◌≤◌, ◌≡◌, inl, inr, refl, sym, ap, ◌∙◌, String, Bool, true, false, not, ◌&&◌, ◌||◌, Option,
  none, some, str_eq, arith, leb, ltb, if◌then◌else◌, some_and, Bool-cases, Option-cases,
}
use tiktok_outreach.CreatorDatabase.Buckets.{is_specific_gmv_partition}
use tiktok_outreach.CreatorDatabase.Ranges.{Range, WidthRules, split_follower_range, Rate, at_least}

pub data PartitionType : Type 0 where
  v2_seed adaptive_follower adaptive_gmv : PartitionType

abbrev is_seed : PartitionType → Bool
is_seed v2_seed = true
is_seed _ = false

abbrev is_adaptive_follower : PartitionType → Bool
is_adaptive_follower adaptive_follower = true
is_adaptive_follower _ = false

pub data SaturationState : Type 0 where
  unknown observed_saturated not_observed_saturated : SaturationState

abbrev is_saturated : SaturationState → Bool
is_saturated observed_saturated = true
is_saturated _ = false

unfoldable pub observed_saturation_state : Bool → ℕ → ℕ → ℕ → SaturationState
observed_saturation_state completed rows lo hi =
    if not completed
    then unknown
    else if leb lo rows && leb rows hi
    then observed_saturated
    else not_observed_saturated

pub data ExpansionReason : Type 0 where
  unsupported_gmv_branch already_terminal already_explored range_at_minimum_width : ExpansionReason
  insufficient_sample g4_exceptional_evidence g4_evidence_gate_not_met : ExpansionReason
  g3_local_productivity_override g3_local_evidence_not_productive : ExpansionReason
  g1_g2_first_split_evidence first_split_evidence_not_productive : ExpansionReason
  not_follower_recursion g1_g2_deep_productivity deeper_evidence_not_productive : ExpansionReason

pub data Expansion : Type 0 where
  follower : Range × Range → ExpansionReason → Expansion
  nothing : ExpansionReason → Expansion

pub record ExpansionInput : Type 0 where
  pub partition_type : PartitionType
  pub saturation : SaturationState
  pub followers_min : ℕ
  pub followers_max : Option ℕ
  pub yield : Option Rate
  pub rows_returned : ℕ
  pub successful_pages : ℕ
  pub unique_creators_added : ℕ
  pub follower_split_explored : Bool
  pub follower_recursion_terminal : Bool
  pub gmv_split_created : Bool
  pub gmv_bucket : Option String
  pub gmv_range : Option String

abbrev pub unique_rate : ExpansionInput → Rate
unique_rate i = record { count = i.unique_creators_added; total = i.rows_returned }

abbrev pub new_per_page : ExpansionInput → Rate
new_per_page i = record { count = i.unique_creators_added; total = i.successful_pages }

abbrev pub is_code : ExpansionInput → String → Bool
is_code i code = some_and i.gmv_bucket (λ c. str_eq c code)

-- Four new creators a page, and a fifth or a tenth of the rows new.
abbrev pub four_a_page : ExpansionInput → Bool
four_a_page i = at_least (new_per_page i) 400

abbrev pub unique_fifth : ExpansionInput → Bool
unique_fifth i = at_least (unique_rate i) 20

abbrev pub unique_tenth : ExpansionInput → Bool
unique_tenth i = at_least (unique_rate i) 10

abbrev answer : Bool → Range × Range → ExpansionReason → ExpansionReason → Expansion
answer good bounds granted denied = if good then follower bounds granted else nothing denied

module _ (i : ExpansionInput) (deep : ℕ) (bounds : Range × Range) where
  abbrev deeper : Expansion
  deeper = elim i.yield [
    | none ↦ nothing not_follower_recursion
    | some y ↦
        if not (is_adaptive_follower i.partition_type)
        then nothing not_follower_recursion
        else answer
            (at_least y deep && four_a_page i && (is_saturated i.saturation || unique_fifth i))
            bounds g1_g2_deep_productivity deeper_evidence_not_productive
  ]

  unfoldable pub graded : Expansion
  graded =
      if is_code i "G4"
      then answer (unique_tenth i && four_a_page i) bounds g4_exceptional_evidence
          g4_evidence_gate_not_met
      else if is_code i "G3"
      then answer (unique_fifth i && four_a_page i) bounds g3_local_productivity_override
          g3_local_evidence_not_productive
      else if not (is_code i "G1") && not (is_code i "G2")
      then nothing unsupported_gmv_branch
      else if is_seed i.partition_type
      then answer (is_saturated i.saturation || unique_fifth i || four_a_page i) bounds
          g1_g2_first_split_evidence first_split_evidence_not_productive
      else deeper

unfoldable pub adaptive_expansion : ExpansionInput → WidthRules → ℕ → ℕ → Expansion
unfolding graded
adaptive_expansion i rules deep minimum_rows =
    if not (is_specific_gmv_partition i.gmv_bucket i.gmv_range)
    then nothing unsupported_gmv_branch
    else if i.follower_recursion_terminal
    then nothing already_terminal
    else if i.gmv_split_created || i.follower_split_explored
    then nothing already_explored
    else elim (split_follower_range i.followers_min i.followers_max rules) [
      | none ↦ nothing range_at_minimum_width
      | some bounds ↦
          if ltb i.rows_returned minimum_rows
          then nothing insufficient_sample
          else graded i deep bounds
    ]

-- The evidence that a branch of each bucket needs.
pub data Productive (i : ExpansionInput) (deep : ℕ) : Type 0 where
  exceptional :
      is_code i "G4" ≡ true → unique_tenth i ≡ true → four_a_page i ≡ true → Productive i deep
  high : is_code i "G3" ≡ true → unique_fifth i ≡ true → four_a_page i ≡ true → Productive i deep
  seed :
      (is_code i "G1" || is_code i "G2") ≡ true
      → i.partition_type ≡ v2_seed
      → (is_saturated i.saturation || unique_fifth i || four_a_page i) ≡ true
      → Productive i deep
  branch :
      (y : Rate)
      → (is_code i "G1" || is_code i "G2") ≡ true
      → i.partition_type ≡ adaptive_follower
      → i.yield ≡ some y
      → at_least y deep ≡ true
      → four_a_page i ≡ true
      → (is_saturated i.saturation || unique_fifth i) ≡ true
      → Productive i deep

module _ (bounds bounds' : Range × Range) (reason : ExpansionReason) where
  answered :
      (good : Bool) (granted denied : ExpansionReason)
      → answer good bounds granted denied ≡ follower bounds' reason
      → (good ≡ true) × (bounds' ≡ bounds)
  answered true granted denied h = (refl, ground arith)
  answered false granted denied h = cc

  module _ (i : ExpansionInput) (deep : ℕ) where
    deeper-Productive :
        (is_code i "G1" || is_code i "G2") ≡ true
        → deeper i deep bounds ≡ follower bounds' reason
        → (bounds' ≡ bounds) × Productive i deep
    deeper-Productive code h = elim (Option-cases i.yield) [
      | inl e ↦ ground arith
      | inr (y, e) ↦ elim (Bool-cases (is_adaptive_follower i.partition_type)) [
        | inl g ↦
            let (good, same) =
              answered
                (at_least y deep && four_a_page i && (is_saturated i.saturation || unique_fifth i))
                g1_g2_deep_productivity deeper_evidence_not_productive (ground arith) in
            (same, branch y code (ground arith) e (ground arith) (ground arith) (ground arith))
        | inr g ↦ ground arith
      ]
    ]

    graded-Productive :
        graded i deep bounds ≡ follower bounds' reason → (bounds' ≡ bounds) × Productive i deep
    unfolding graded
    graded-Productive h = elim (Bool-cases (is_code i "G4")) [
      | inl e ↦
          let (good, same) =
            answered (unique_tenth i && four_a_page i) g4_exceptional_evidence
              g4_evidence_gate_not_met (ground arith) in
          (same, exceptional e (ground arith) (ground arith))
      | inr e ↦ elim (Bool-cases (is_code i "G3")) [
        | inl g ↦
            let (good, same) =
              answered (unique_fifth i && four_a_page i) g3_local_productivity_override
                g3_local_evidence_not_productive (ground arith) in
            (same, high g (ground arith) (ground arith))
        | inr g ↦ elim (Bool-cases (is_code i "G1" || is_code i "G2")) [
          | inr k ↦ ground arith
          | inl k ↦ elim (Bool-cases (is_seed i.partition_type)) [
            | inl t ↦
                let (good, same) =
                  answered (is_saturated i.saturation || unique_fifth i || four_a_page i)
                    g1_g2_first_split_evidence first_split_evidence_not_productive (ground arith) in
                (same, seed k (ground arith) good)
            | inr t ↦ deeper-Productive k (ground arith)
          ]
        ]
      ]
    ]

-- adaptiveExpansion splits a branch only where the branch has a specific GMV bucket with its range,
-- was neither ended nor split before, returned the least number of rows, may be split by
-- splitFollowerRange, and shows the evidence of its bucket: in G4 a tenth of the rows and four
-- creators a page new, in G3 a fifth and four a page, in G1 and G2 for a seed saturation or one of
-- these, and for a follower branch the deep yield, four a page, and saturation or a fifth. The bounds
-- are then those of splitFollowerRange.
pub expansion-Productive :
    (i : ExpansionInput) (rules : WidthRules) (deep minimum_rows : ℕ) (bounds : Range × Range)
    (reason : ExpansionReason)
    → adaptive_expansion i rules deep minimum_rows ≡ follower bounds reason
    → (is_specific_gmv_partition i.gmv_bucket i.gmv_range ≡ true)
      × (i.follower_recursion_terminal ≡ false)
      × (i.gmv_split_created ≡ false)
      × (i.follower_split_explored ≡ false)
      × (minimum_rows ≤ i.rows_returned)
      × (split_follower_range i.followers_min i.followers_max rules ≡ some bounds)
      × Productive i deep
unfolding adaptive_expansion
expansion-Productive i rules deep minimum_rows bounds reason h =
    elim (Option-cases (split_follower_range i.followers_min i.followers_max rules)) [
      | inl e ↦ ground arith
      | inr (bounds', e) ↦
          let grade : graded i deep bounds' ≡ follower bounds reason = ground arith in
          let (same, productive) = graded-Productive bounds' bounds reason i deep grade in
          (
            ground arith,
            ground arith,
            ground arith,
            ground arith,
            ground arith,
            e ∙ ap some (sym same),
            productive,
          )
    ]
