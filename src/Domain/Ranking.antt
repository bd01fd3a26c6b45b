-- ===== src/Domain/Ranking.antt =====
-- rankingValue of packages/domain/src/index.ts, and the order in which buildPreview sorts.
use tiktok_outreach.Prelude.{
  ℕ, zero, suc, String, Bool, true, false, Option, none, some, if◌then◌else◌, Locale, ◌≡◌, ◌⊎◌,
  arith,
}
use tiktok_outreach.Prelude.Int.{ℤ, pos, negsuc, leb_ℤ}
use tiktok_outreach.Domain.Creators.{
  CreatorCandidate, RankingMetric, by_gmv, by_units_sold, by_followers, by_avg_video_views,
  by_avg_live_viewers, by_engagement_rate, by_tiktok_relevance, EvaluatedCreator,
}
use tiktok_outreach.Domain.Filters.{numeric_gmv}

-- Number.MIN_SAFE_INTEGER, -(2^53 - 1).
abbrev pub min_safe_integer : ℤ
min_safe_integer = negsuc 9007199254740990

abbrev pub or_lowest : Option ℕ → ℤ
or_lowest none = min_safe_integer
or_lowest (some n) = pos n

abbrev pub negate : ℕ → ℤ
negate zero = pos 0
negate (suc n) = negsuc n

unfoldable pub ranking_value : CreatorCandidate → RankingMetric → ℤ
unfolding numeric_gmv
ranking_value c by_gmv = or_lowest (numeric_gmv c)
ranking_value c by_units_sold = or_lowest c.units_sold
ranking_value c by_followers = or_lowest c.follower_count
ranking_value c by_avg_video_views = or_lowest c.avg_video_views
ranking_value c by_avg_live_viewers = or_lowest c.avg_live_viewers
ranking_value c by_engagement_rate = or_lowest c.engagement_rate
ranking_value c by_tiktok_relevance = negate c.discovery_ordinal

pub data RankingDirection : Type 0 where
  asc desc : RankingDirection

-- The better value of the two, in the direction asked for.
abbrev pub no_worse : RankingDirection → ℤ → ℤ → Bool
no_worse asc a b = leb_ℤ a b
no_worse desc a b = leb_ℤ b a

-- The comparison function given to `sort` is at most 0: the metric, and by ID where it is equal.
unfoldable pub ranked_before :
    Locale → RankingDirection → EvaluatedCreator → EvaluatedCreator → Bool
ranked_before l d a b =
    if no_worse d a.ranking_value b.ranking_value
    then (if no_worse d b.ranking_value a.ranking_value
        then l.collate_le a.creator.creator_open_id b.creator.creator_open_id
        else true)
    else false

-- What is documented of `localeCompare`: it compares consistently.
pub record Collates (l : Locale) : Type 0 where
  pub total : (s t : String) → (l.collate_le s t ≡ true) ⊎ (l.collate_le t s ≡ true)
  pub transitive :
      (s t u : String) → l.collate_le s t ≡ true → l.collate_le t u ≡ true → l.collate_le s u ≡ true

module _ (l : Locale) (laws : Collates l) (d : RankingDirection) where
  pub ranked_before-total :
      (a b : EvaluatedCreator) → (ranked_before l d a b ≡ true) ⊎ (ranked_before l d b a ≡ true)
  unfolding ranked_before
  ranked_before-total a b =
      ground (arith, laws.total a.creator.creator_open_id b.creator.creator_open_id)

  pub ranked_before_trans :
      (a b c : EvaluatedCreator)
      → ranked_before l d a b ≡ true
      → ranked_before l d b c ≡ true
      → ranked_before l d a c ≡ true
  unfolding ranked_before
  ranked_before_trans a b c h k = ground (
    arith,
    laws.transitive a.creator.creator_open_id b.creator.creator_open_id c.creator.creator_open_id,
  )
