-- ===== src/Domain/Filters.antt =====
-- matchesFilters of packages/domain/src/index.ts.
use Prim.Native.String.{◌++◌}
use tiktok_outreach.Prelude.{
  ℕ, String, Bool, true, false, not, ◌&&◌, List, [], ◌∷◌, Option, none, some, str_eq, ltb, any,
  or_else, truthy, includes, trim, Locale,
}
use tiktok_outreach.Domain.Creators.{Money, CreatorCandidate, CreatorFilters}

abbrev pub contains_text : List String → String → Bool
contains_text xs s = any (str_eq s) xs

-- `min != null && (value == null || value < min)`, and the same for a maximum.
abbrev pub below_min : Option ℕ → Option ℕ → Bool
below_min none value = false
below_min (some bound) none = true
below_min (some bound) (some value) = ltb value bound

abbrev pub above_max : Option ℕ → Option ℕ → Bool
above_max none value = false
above_max (some bound) none = true
above_max (some bound) (some value) = ltb bound value

unfoldable pub numeric_gmv : CreatorCandidate → Option ℕ
numeric_gmv c = elim c.gmv [ none ↦ none | some m ↦ some m.amount ]

-- `categoryIds?.length && !categoryIds.some(…)`; an absent list is the empty one.
abbrev pub category_misses : List String → List String → Bool
category_misses [] held = false
category_misses (w ∷ ws) held = not (any (contains_text held) (w ∷ ws))

module _ (l : Locale) where
  full_name : CreatorCandidate → String
  full_name c = or_else c.username "" ++ " " ++ or_else c.nickname ""

  unfoldable pub keyword_misses : Option String → CreatorCandidate → Bool
  unfolding full_name
  keyword_misses none c = false
  keyword_misses (some k) c =
      let keyword = l.lower (trim k) in
      not (str_eq keyword "") && not (includes (l.lower (full_name c)) keyword)

  -- `gmv?.currency.toUpperCase() !== wanted.toUpperCase()`.
  unfoldable pub currency_differs : String → Option Money → Bool
  currency_differs wanted none = true
  currency_differs wanted (some m) = not (str_eq (l.upper m.currency) (l.upper wanted))

  unfoldable pub currency_misses : Option String → Option Money → Bool
  unfolding currency_differs
  currency_misses wanted gmv = elim (truthy wanted) [
    | none ↦ false
    | some w ↦ currency_differs w gmv
  ]

  unfoldable pub matches_filters : CreatorCandidate → CreatorFilters → Bool
  unfolding keyword_misses currency_misses numeric_gmv
  matches_filters c f =
      not (keyword_misses f.keyword c)
      && not (category_misses f.category_ids c.category_ids)
      && not (below_min f.min_followers c.follower_count)
      && not (above_max f.max_followers c.follower_count)
      && not (currency_misses f.gmv_currency c.gmv)
      && not (below_min f.min_gmv (numeric_gmv c))
      && not (above_max f.max_gmv (numeric_gmv c))
      && not (below_min f.min_units_sold c.units_sold)
      && not (below_min f.min_avg_video_views c.avg_video_views)
      && not (below_min f.min_avg_live_viewers c.avg_live_viewers)
      && not (below_min f.min_engagement_rate c.engagement_rate)
