-- ===== src/Domain/Preview.antt =====
-- buildPreview of packages/domain/src/index.ts. `throw` is `none`.
mod Marking
pub mod Safety
pub mod Choice
pub mod Totals
mod Tests
use tiktok_outreach.Prelude.{
  ℕ, zero, suc, ◌+◌, ◌*◌, ◌-◌, min, String, Bool, true, false, not, ◌&&◌, List, [], ◌∷◌, Option,
  none, some, map, str_eq, ==_iff, ◌==◌, ltb, leb, if◌then◌else◌, length, take, select, count,
  or_else, truthy, is_empty, Locale, ◌≡◌, refl, arith,
}
use mathlib.Core.Option
use tiktok_outreach.Prelude.Int.{ℤ, pos, negsuc}
use tiktok_outreach.Prelude.Sorting.{sort}
use tiktok_outreach.Prelude.Positions.{has_position, number, position}
use tiktok_outreach.Domain.Creators.{
  Money, CreatorCandidate, CreatorFilters, RankingMetric, ContactState, SkipReason,
  invalid_messaging_id, filter_mismatch, duplicate, do_not_contact, delivery_unknown, cooldown,
  contacted_by_app_within_cooldown, active_reservation, EvaluatedCreator,
}
use tiktok_outreach.Domain.Filters.{contains_text, matches_filters, currency_differs}
use tiktok_outreach.Domain.Ranking.{ranking_value, RankingDirection, asc, desc, ranked_before}

-- The map and the set of the input are functions: what `get` and `has` answer.
pub record PreviewInput : Type 0 where
  pub creators : List CreatorCandidate
  pub filters : CreatorFilters
  pub contacts : String → Option ContactState
  pub active_reservations : String → Bool
  pub requested : ℕ
  pub cooldown_days : ℤ
  pub ranking_metric : RankingMetric
  pub ranking_direction : Option RankingDirection
  pub now : ℕ
  pub truncated : Bool

pub record PreviewSummary : Type 0 where
  pub requested : ℕ
  pub fetched_occurrences : ℕ
  pub excluded_by_filter : ℕ
  pub skipped_duplicates : ℕ
  pub skipped_do_not_contact : ℕ
  pub skipped_unknown_delivery : ℕ
  pub skipped_cooldown : ℕ
  pub skipped_active_reservation : ℕ
  pub eligible : ℕ
  pub selected : ℕ
  pub shortfall : ℕ
  pub truncated : Bool
  pub gmv_currency_counts : List (String × ℕ)
  pub gmv_mixed_currency : Bool
  pub expected_gmv_currency : Option String
  pub gmv_excluded_currency_mismatch : ℕ

pub record PreviewResult : Type 0 where
  pub creators : List EvaluatedCreator
  pub summary : PreviewSummary

abbrev pub max_contact_cooldown_days : ℕ
max_contact_cooldown_days = 100000000

abbrev pub day_ms : ℕ
day_ms = 86400000

-- assertContactCooldownDays: the days, unless it throws.
unfoldable pub contact_cooldown_days : ℤ → Option ℕ
contact_cooldown_days (negsuc n) = none
contact_cooldown_days (pos n) = if ltb max_contact_cooldown_days n then none else some n

-- `last > now - days`, written as a sum: the cutoff may lie before the epoch.
abbrev pub after_cutoff : ℕ → ℕ → ℕ → Bool
after_cutoff now days last = ltb now (last + days * day_ms)

abbrev pub within_cooldown : ℕ → ℕ → ContactState → Bool
within_cooldown now days s = elim s.last_contacted_at [
  | none ↦ false
  | some last ↦ after_cutoff now days last
]

-- The part of the ladder that reads the contact; `reserved` is the last test.
unfoldable pub contact_skip : ℕ → ℕ → Bool → Option ContactState → Option SkipReason
contact_skip now days reserved none = if reserved then some active_reservation else none
contact_skip now days reserved (some s) =
    if s.do_not_contact
    then some do_not_contact
    else if s.unresolved_delivery
    then some delivery_unknown
    else if within_cooldown now days s
    then some (if s.historical then cooldown else contacted_by_app_within_cooldown)
    else if reserved
    then some active_reservation
    else none

module _ (l : Locale) (input : PreviewInput) (days : ℕ) where
  unfoldable pub skip_reason : List String → CreatorCandidate → Option SkipReason
  unfolding contact_skip
  skip_reason seen c =
      if is_empty c.creator_open_id
      then some invalid_messaging_id
      else if not (matches_filters l c input.filters)
      then some filter_mismatch
      else if contains_text seen c.creator_open_id
      then some duplicate
      else contact_skip input.now days (input.active_reservations c.creator_open_id)
          (input.contacts c.creator_open_id)

  abbrev pub see : String → List String → List String
  see id seen = if is_empty id then seen else id ∷ seen

  abbrev pub evaluated : CreatorCandidate → Option SkipReason → EvaluatedCreator
  evaluated c reason = record {
    creator = c;
    is_eligible = elim reason [ none ↦ true | some _ ↦ false ];
    skip_reason = reason;
    ranking_value = ranking_value c input.ranking_metric;
    selected = false;
  }

  -- The callback of `input.creators.map`, with the set `seen` that it grows.
  unfoldable pub evaluate : List String → List CreatorCandidate → List EvaluatedCreator
  unfolding skip_reason
  evaluate seen [] = []
  evaluate seen (c ∷ cs) =
      evaluated c (skip_reason seen c) ∷ evaluate (see c.creator_open_id seen) cs

-- `eligible.slice(0, requested).forEach((creator) => { creator.selected = true; })` sets the flag in
-- `creators`, which holds the same objects: `chosen` are their positions.
unfoldable pub mark_selected : List ℕ → ℕ → List EvaluatedCreator → List EvaluatedCreator
mark_selected chosen n [] = []
mark_selected chosen n (c ∷ cs) =
    record c { selected = has_position chosen n } ∷ mark_selected chosen (suc n) cs

abbrev pub eligible_entry : ℕ × EvaluatedCreator → Bool
eligible_entry q = q.1.is_eligible

module _ (l : Locale) (d : RankingDirection) where
  abbrev pub entry_before : ℕ × EvaluatedCreator → ℕ × EvaluatedCreator → Bool
  entry_before a b = ranked_before l d a.1 b.1

  unfoldable pub ranked_eligible : List EvaluatedCreator → List (ℕ × EvaluatedCreator)
  ranked_eligible cs = sort entry_before (select eligible_entry (number 0 cs))

  unfoldable pub chosen : ℕ → List EvaluatedCreator → List ℕ
  unfolding ranked_eligible
  chosen requested cs = map position (take requested (ranked_eligible cs))

-- `counts[currency] = (counts[currency] ?? 0) + 1`.
unfoldable pub tally : String → List (String × ℕ) → List (String × ℕ)
tally key [] = (key, 1) ∷ []
tally key ((k, n) ∷ counts) =
    let rest = tally key counts in if str_eq k key then (k, n + 1) ∷ counts else (k, n) ∷ rest

unfoldable pub currency_counts :
    Locale → List (String × ℕ) → List CreatorCandidate → List (String × ℕ)
unfolding tally
currency_counts l counts [] = counts
currency_counts l counts (c ∷ cs) =
    currency_counts l
      (elim c.gmv [
        | none ↦ counts
        | some m ↦ if is_empty m.currency then counts else tally (l.upper m.currency) counts
      ])
      cs

abbrev pub reason_code : SkipReason → ℕ
reason_code invalid_messaging_id = 0
reason_code filter_mismatch = 1
reason_code duplicate = 2
reason_code do_not_contact = 3
reason_code delivery_unknown = 4
reason_code cooldown = 5
reason_code contacted_by_app_within_cooldown = 6
reason_code active_reservation = 7

abbrev pub skipped_for : SkipReason → EvaluatedCreator → Bool
skipped_for reason c = elim c.skip_reason [
  | none ↦ false
  | some r ↦ reason_code r == reason_code reason
]

-- `count(reason)`.
abbrev pub count_reason : SkipReason → List EvaluatedCreator → ℕ
count_reason reason cs = count (skipped_for reason) cs

abbrev pub mismatched : Locale → String → EvaluatedCreator → Bool
mismatched l wanted c = elim c.creator.gmv [
  | none ↦ false
  | some m ↦ currency_differs l wanted (some m)
]

unfoldable pub summarize : Locale → PreviewInput → ℕ → List EvaluatedCreator → PreviewSummary
unfolding currency_counts
summarize l input eligible cs =
    let selected = min input.requested eligible in
    let counts = currency_counts l [] input.creators in
    record {
      requested = input.requested;
      fetched_occurrences = length cs;
      excluded_by_filter = count_reason filter_mismatch cs + count_reason invalid_messaging_id cs;
      skipped_duplicates = count_reason duplicate cs;
      skipped_do_not_contact = count_reason do_not_contact cs;
      skipped_unknown_delivery = count_reason delivery_unknown cs;
      skipped_cooldown =
          count_reason cooldown cs + count_reason contacted_by_app_within_cooldown cs;
      skipped_active_reservation = count_reason active_reservation cs;
      eligible = eligible;
      selected = selected;
      shortfall = input.requested - selected;
      truncated = input.truncated;
      gmv_currency_counts = counts;
      gmv_mixed_currency = ltb 1 (length counts);
      expected_gmv_currency = Option.map l.upper input.filters.gmv_currency;
      gmv_excluded_currency_mismatch = elim (truthy input.filters.gmv_currency) [
        | none ↦ 0
        | some wanted ↦ count (mismatched l wanted) cs
      ];
    }

abbrev pub direction : PreviewInput → RankingDirection
direction input = or_else input.ranking_direction desc

unfoldable pub preview_creators : Locale → PreviewInput → ℕ → List EvaluatedCreator
unfolding evaluate mark_selected chosen
preview_creators l input days =
    let cs = evaluate l input days [] input.creators in
    mark_selected (chosen l (direction input) input.requested cs) 0 cs

unfoldable pub preview : Locale → PreviewInput → ℕ → PreviewResult
unfolding preview_creators ranked_eligible summarize
preview l input days =
    let cs = evaluate l input days [] input.creators in
    let creators = preview_creators l input days in
    record {
      creators = creators;
      summary = summarize l input (length (ranked_eligible l (direction input) cs)) creators;
    }

unfoldable pub build_preview : Locale → PreviewInput → Option PreviewResult
unfolding contact_cooldown_days preview
build_preview l input = elim (contact_cooldown_days input.cooldown_days) [
  | none ↦ none
  | some days ↦ some (preview l input days)
]

pub build_preview-some :
    (l : Locale) (input : PreviewInput) (r : PreviewResult)
    → build_preview l input ≡ some r
    → (days : ℕ) × (input.cooldown_days ≡ pos days) × (r ≡ preview l input days)
unfolding build_preview
build_preview-some l input r h = go input.cooldown_days refl h
  where
    go :
        (z : ℤ)
        → input.cooldown_days ≡ z
        → build_preview l input ≡ some r
        → (days : ℕ) × (input.cooldown_days ≡ pos days) × (r ≡ preview l input days)
    go (pos n) e h = (n, e, ground arith)
    go (negsuc n) e h = ground arith
