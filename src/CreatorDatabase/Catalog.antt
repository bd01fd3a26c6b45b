-- ===== src/CreatorDatabase/Catalog.antt =====
-- The verified category catalog and the base partitions
-- (apps/api/src/creator-database/marketplace-partitions.ts).
use tiktok_outreach.Prelude.{
  String, Bool, false, not, ◌&&◌, ◌||◌, List, [], ◌∷◌, map, Option, none, some, str_eq, ◌==◌,
  if◌then◌else◌, or_else, is_some, some_and, any, select, length, Locale,
}
use tiktok_outreach.Prelude.Int.{ℤ, pos, leb_ℤ}
use tiktok_outreach.Prelude.Sorting.{sort}

-- MarketplaceCategoryCatalogNode.
pub record CatalogNode : Type 0 where
  pub category_id : String
  pub category_name : Option String
  pub parent_category_id : Option String
  pub enabled_for_creator_crawl : Option Bool
  pub available_for_creator_filter : Option Bool
  pub sort_order : Option ℤ

-- `flag === false`.
abbrev pub is_off : Option Bool → Bool
is_off none = false
is_off (some b) = not b

abbrev pub is_root : CatalogNode → Bool
is_root c = not (is_some c.parent_category_id)

abbrev pub is_child_of : String → CatalogNode → Bool
is_child_of parent c = some_and c.parent_category_id (λ p. str_eq p parent)

-- `new Map(…)` and `get`: the last node of an ID counts.
unfoldable pub by_id : String → List CatalogNode → Option CatalogNode
by_id id [] = none
by_id id (c ∷ cs) = elim (by_id id cs) [
  | some d ↦ some d
  | none ↦ if str_eq c.category_id id then some c else none
]

pub data SelectionError : Type 0 where
  absent_category not_a_root not_enabled no_child duplicate_child : SelectionError
  not_immediate_child child_unavailable : SelectionError

-- `new Set(ids).size !== ids.length`.
unfoldable pub has_duplicates : List String → Bool
has_duplicates [] = false
has_duplicates (id ∷ ids) = any (λ k. str_eq k id) ids || has_duplicates ids

module _ (parent : String) (catalog : List CatalogNode) where
  abbrev pub child_error : Option CatalogNode → Option SelectionError
  child_error none = some not_immediate_child
  child_error (some c) =
      if not (is_child_of parent c)
      then some not_immediate_child
      else if is_off c.available_for_creator_filter
      then some child_unavailable
      else none

  unfoldable pub children_error : List String → Option SelectionError
  unfolding by_id
  children_error [] = none
  children_error (id ∷ ids) =
      let rest = children_error ids in
      elim (child_error (by_id id catalog)) [ some e ↦ some e | none ↦ rest ]

  abbrev pub parent_error : Option CatalogNode → Option SelectionError
  parent_error none = some absent_category
  parent_error (some c) =
      if not (is_root c)
      then some not_a_root
      else if is_off c.enabled_for_creator_crawl
      then some not_enabled
      else none

  -- What it throws, if it does.
  unfoldable pub validate_marketplace_category_selection : List String → Option SelectionError
  unfolding by_id has_duplicates children_error
  validate_marketplace_category_selection children = elim (parent_error (by_id parent catalog)) [
    | some e ↦ some e
    | none ↦
        if length children == 0
        then some no_child
        else if has_duplicates children
        then some duplicate_child
        else children_error children
  ]

pub data CategorySnapshot : Type 0 where
  taken : List String → CategorySnapshot
  invalid : SelectionError → CategorySnapshot

abbrev pub is_offered_child : String → CatalogNode → Bool
is_offered_child parent c = is_child_of parent c && not (is_off c.available_for_creator_filter)

abbrev pub is_parent : CatalogNode → Bool
is_parent c =
    is_root c
    && not (is_off c.enabled_for_creator_crawl)
    && not (is_off c.available_for_creator_filter)

module _ (l : Locale) where
  -- The comparison of `sort` is at most 0.
  abbrev pub listed_before : CatalogNode → CatalogNode → Bool
  listed_before a b =
      let m = or_else a.sort_order (pos 0) in
      let n = or_else b.sort_order (pos 0) in
      leb_ℤ m n && (not (leb_ℤ n m) || l.collate_le a.category_id b.category_id)

  unfoldable pub children_of : String → List CatalogNode → List CatalogNode
  children_of parent catalog = sort listed_before (select (is_offered_child parent) catalog)

  unfoldable pub category_child_snapshot : String → List CatalogNode → CategorySnapshot
  unfolding children_of validate_marketplace_category_selection
  category_child_snapshot parent catalog =
      let ids = map (λ c. c.category_id) (children_of parent catalog) in
      elim (validate_marketplace_category_selection parent catalog ids) [
        | none ↦ taken ids
        | some e ↦ invalid e
      ]
