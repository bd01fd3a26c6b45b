-- ===== src/Domain/Preview/Tests.antt =====
-- A preview of four occurrences: two creators to contact, a repeat, and one contacted yesterday.
use tiktok_outreach.Prelude.{
  ℕ, ◌+◌, ◌*◌, ◌≡◌, ◌≢◌, refl, inl, Bool, true, false, [], ◌∷◌, some, none, String, str_eq, arith,
  if◌then◌else◌, count, min, Locale,
}
use tiktok_outreach.Prelude.Int.{pos}
use tiktok_outreach.Prelude.Sorting.{sort}
use tiktok_outreach.Domain.Creators.{
  CreatorCandidate, CreatorFilters, by_followers, ContactState, EvaluatedCreator,
}
use tiktok_outreach.Domain.Filters.{matches_filters}
use tiktok_outreach.Domain.Ranking.{Collates, ranked_before, ranking_value}
use tiktok_outreach.Domain.Preview.{PreviewInput, day_ms, preview, build_preview, direction}
use tiktok_outreach.Domain.Preview.Marking.{is_selected}
use tiktok_outreach.Domain.Preview.Choice.{is_eligible}
use tiktok_outreach.Domain.Preview.Totals.{summary_accounts, summary_selects}
use tiktok_outreach.Domain.Preview.Safety.{
  IsContactable, selected-IsContactable, selected_distinct, selected-ranked_before,
}

-- A locale that compares no letters.
abbrev plain : Locale
plain = record { lower = λ s. s; upper = λ s. s; collate_le = λ s t. true }

plain-Collates : Collates plain
plain-Collates = record { total = λ s t. inl refl; transitive = λ s t u h k. refl }

abbrev creator : String → ℕ → CreatorCandidate
creator id followers = record {
  creator_open_id = id;
  username = none;
  nickname = none;
  category_ids = [];
  follower_count = some followers;
  gmv = none;
  units_sold = none;
  avg_video_views = none;
  avg_live_viewers = none;
  engagement_rate = none;
  discovery_ordinal = 0;
}

abbrev no_filters : CreatorFilters
no_filters = record {
  keyword = none;
  category_ids = [];
  min_followers = some 600;
  max_followers = none;
  min_gmv = none;
  max_gmv = none;
  gmv_currency = none;
  min_units_sold = none;
  min_avg_video_views = none;
  min_avg_live_viewers = none;
  min_engagement_rate = none;
}

abbrev contacted : ℕ → ContactState
contacted at = record {
  last_contacted_at = some at;
  first_contacted_at = some at;
  contact_count = 1;
  do_not_contact = false;
  unresolved_delivery = false;
  historical = true;
}

abbrev input : PreviewInput
input = record {
  creators =
      creator "a" 1000
      ∷ creator "b" 5000
      ∷ creator "a" 1000
      ∷ creator "c" 9000
      ∷ creator "d" 700
      ∷ [];
  filters = no_filters;
  contacts = λ id. if str_eq id "c" then some (contacted (99 * day_ms)) else none;
  active_reservations = λ id. false;
  requested = 2;
  cooldown_days = pos 30;
  ranking_metric = by_followers;
  ranking_direction = none;
  now = 100 * day_ms;
  truncated = false;
}

built : build_preview plain input ≡ some (preview plain input 30)
unfolding build_preview
built = refl

abbrev evaluated_a : Bool → EvaluatedCreator
evaluated_a s = record {
  creator = creator "a" 1000;
  is_eligible = true;
  skip_reason = none;
  ranking_value = pos 1000;
  selected = s;
}

abbrev evaluated_b : EvaluatedCreator
evaluated_b = record {
  creator = creator "b" 5000;
  is_eligible = true;
  skip_reason = none;
  ranking_value = pos 5000;
  selected = true;
}

abbrev evaluated_d : EvaluatedCreator
evaluated_d = record {
  creator = creator "d" 700;
  is_eligible = true;
  skip_reason = none;
  ranking_value = pos 700;
  selected = false;
}

summary_accounts_example :
    let s = (preview plain input 30).summary in
    (s.fetched_occurrences ≡ 5)
    × (s.excluded_by_filter + s.skipped_duplicates + s.skipped_do_not_contact
          + s.skipped_unknown_delivery + s.skipped_cooldown + s.skipped_active_reservation
          + s.eligible
        ≡ s.fetched_occurrences)
summary_accounts_example = summary_accounts plain input (preview plain input 30) built

summary_selects_example :
    let r = preview plain input 30 in
    (count is_eligible r.creators ≡ r.summary.eligible)
    × (count is_selected r.creators ≡ r.summary.selected)
    × (r.summary.selected ≡ min 2 r.summary.eligible)
    × (r.summary.selected + r.summary.shortfall ≡ 2)
summary_selects_example = summary_selects plain input (preview plain input 30) built

three_eligible : (preview plain input 30).summary.eligible ≡ 3
unfolding preview sort ranking_value ranked_before matches_filters
three_eligible = refl

selected-IsContactable_example :
    (days : ℕ) × (pos 30 ≡ pos days) × IsContactable plain input days (creator "b" 5000)
unfolding preview sort ranking_value ranked_before matches_filters
selected-IsContactable_example =
    selected-IsContactable plain input (preview plain input 30) built 1 evaluated_b refl refl

selected_distinct_example : ◌≢◌ {A = String} "a" "b"
unfolding preview sort ranking_value ranked_before matches_filters
selected_distinct_example =
    selected_distinct plain input (preview plain input 30) built 0 1 (evaluated_a true) evaluated_b
      (omega arith) refl refl refl refl

selected-ranked_before_example :
    ranked_before plain (direction input) (evaluated_a true) evaluated_d ≡ true
unfolding preview sort ranking_value ranked_before matches_filters
selected-ranked_before_example =
    selected-ranked_before plain input (preview plain input 30) built plain-Collates 0 4
      (evaluated_a true) evaluated_d refl refl refl refl refl
