-- ===== src/Domain/Creators.antt =====
-- The types of packages/domain/src/index.ts: creators, filters, contact states, skip reasons.
-- Instants are milliseconds since the epoch. A decimal amount or rate (GMV, engagement) is a whole
-- number of ten-thousandths. Fields that no function reads (avatar, demographics) are left out.
use tiktok_outreach.Prelude.{ℕ, String, Bool, List, Option}
use tiktok_outreach.Prelude.Int.{ℤ}

pub record Money : Type 0 where
  pub amount : ℕ
  pub currency : String

pub record CreatorCandidate : Type 0 where
  pub creator_open_id : String
  pub username : Option String
  pub nickname : Option String
  pub category_ids : List String
  pub follower_count : Option ℕ
  pub gmv : Option Money
  pub units_sold : Option ℕ
  pub avg_video_views : Option ℕ
  pub avg_live_viewers : Option ℕ
  pub engagement_rate : Option ℕ
  pub discovery_ordinal : ℕ

pub record CreatorFilters : Type 0 where
  pub keyword : Option String
  pub category_ids : List String
  pub min_followers : Option ℕ
  pub max_followers : Option ℕ
  pub min_gmv : Option ℕ
  pub max_gmv : Option ℕ
  pub gmv_currency : Option String
  pub min_units_sold : Option ℕ
  pub min_avg_video_views : Option ℕ
  pub min_avg_live_viewers : Option ℕ
  pub min_engagement_rate : Option ℕ

pub data RankingMetric : Type 0 where
  by_gmv by_units_sold by_followers by_avg_video_views by_avg_live_viewers : RankingMetric
  by_engagement_rate by_tiktok_relevance : RankingMetric

pub record ContactState : Type 0 where
  pub last_contacted_at : Option ℕ
  pub first_contacted_at : Option ℕ
  pub contact_count : ℕ
  pub do_not_contact : Bool
  pub unresolved_delivery : Bool
  pub historical : Bool

pub data SkipReason : Type 0 where
  invalid_messaging_id filter_mismatch duplicate do_not_contact delivery_unknown : SkipReason
  cooldown contacted_by_app_within_cooldown active_reservation : SkipReason

-- `eligibility` is "EXCLUDED" exactly where a reason is set.
pub record EvaluatedCreator : Type 0 where
  pub creator : CreatorCandidate
  pub is_eligible : Bool
  pub skip_reason : Option SkipReason
  pub ranking_value : ℤ
  pub selected : Bool
