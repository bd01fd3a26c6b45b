-- ===== src/CreatorDatabase/Tests.antt =====
-- A small catalog, and a branch that is split.
use tiktok_outreach.Prelude.{
  ◌*◌, ◌≤◌, ◌<◌, ◌≡◌, ◌↔◌, refl, String, true, false, List, [], ◌∷◌, Option, none, some, is_some,
  Locale,
}
use tiktok_outreach.Prelude.Int.{pos}
use tiktok_outreach.CreatorDatabase.Buckets.{
  FollowerBucket, covers, covering, creator_follower_buckets, creator_follower_hard_floor,
  follower_bucket_for, gmv_bucket_definition, is_specific_gmv_partition, buckets_partition,
}
use tiktok_outreach.CreatorDatabase.Ranges.{
  Range, default_follower_width_rules, minimum_follower_width, split_follower_range,
  binary_follower_range, inclusive_follower_width, at_least, Splittable, IsSplit, width_of,
  split_follower_range_lem,
}
use tiktok_outreach.CreatorDatabase.Expansion.{
  v2_seed, observed_saturated, g1_g2_first_split_evidence, follower, ExpansionInput, graded,
  adaptive_expansion, Productive, expansion-Productive,
}
use tiktok_outreach.CreatorDatabase.Catalog.{CatalogNode, validate_marketplace_category_selection}
use tiktok_outreach.CreatorDatabase.Rows.{PartitionRow}
use tiktok_outreach.CreatorDatabase.Rows.Offered.{IsPartition, base_rows-IsPartition}
use tiktok_outreach.CreatorDatabase.Selection.{IsValidSelection, validate-IsValidSelection}

buckets_partition_example :
    ((creator_follower_hard_floor ≤ 1499)
      → (b : FollowerBucket) × (follower_bucket_for 1499 ≡ some b)
        × (covers b 1499 ≡ true)
        × (covering 1499 creator_follower_buckets ≡ 1))
    × (1499 < creator_follower_hard_floor → follower_bucket_for 1499 ≡ none)
buckets_partition_example = buckets_partition 1499

split_follower_range_lem_example :
    ((is_some (split_follower_range 600 (some 799) default_follower_width_rules) ≡ true)
      ↔ Splittable 600 799 (minimum_follower_width 600 default_follower_width_rules * 2))
    × ((l r : Range)
        → split_follower_range 600 (some 799) default_follower_width_rules ≡ some (l, r)
        → IsSplit 600 799 l r
          × (minimum_follower_width 600 default_follower_width_rules ≤ width_of l)
          × (minimum_follower_width 600 default_follower_width_rules ≤ width_of r))
split_follower_range_lem_example = split_follower_range_lem 600 799 default_follower_width_rules

abbrev seed : ExpansionInput
seed = record {
  partition_type = v2_seed;
  saturation = observed_saturated;
  followers_min = 600;
  followers_max = some 799;
  yield = none;
  rows_returned = 400;
  successful_pages = 20;
  unique_creators_added = 10;
  follower_split_explored = false;
  follower_recursion_terminal = false;
  gmv_split_created = false;
  gmv_bucket = some "G1";
  gmv_range = some "GMV_RANGE_0_100";
}

abbrev halves : Range × Range
halves = (record { min = 600; max = 699 }, record { min = 700; max = 799 })

seed_splits :
    adaptive_expansion seed default_follower_width_rules 10 200
    ≡ follower halves g1_g2_first_split_evidence
unfolding adaptive_expansion graded split_follower_range binary_follower_range
    inclusive_follower_width minimum_follower_width gmv_bucket_definition at_least
seed_splits = refl

expansion-Productive_example :
    (is_specific_gmv_partition (some "G1") (some "GMV_RANGE_0_100") ≡ true)
    × (false ≡ false)
    × (false ≡ false)
    × (false ≡ false)
    × (200 ≤ 400)
    × (split_follower_range 600 (some 799) default_follower_width_rules ≡ some halves)
    × Productive seed 10
expansion-Productive_example =
    expansion-Productive seed default_follower_width_rules 10 200 halves g1_g2_first_split_evidence
      seed_splits

abbrev node : String → Option String → CatalogNode
node id parent = record {
  category_id = id;
  category_name = none;
  parent_category_id = parent;
  enabled_for_creator_crawl = some true;
  available_for_creator_filter = some true;
  sort_order = some (pos 1);
}

abbrev catalog : List CatalogNode
catalog = node "beauty" none ∷ node "skin" (some "beauty") ∷ node "hair" (some "beauty") ∷ []

abbrev locale : Locale
locale = record { lower = λ s. s; upper = λ s. s; collate_le = λ a b. true }

base_rows-IsPartition_example : (rows : List PartitionRow) × IsPartition locale catalog rows
base_rows-IsPartition_example = base_rows-IsPartition locale catalog

validate-IsValidSelection_example :
    (validate_marketplace_category_selection "beauty" catalog ("skin" ∷ []) ≡ none)
    ↔ IsValidSelection "beauty" catalog ("skin" ∷ [])
validate-IsValidSelection_example = validate-IsValidSelection "beauty" catalog ("skin" ∷ [])
