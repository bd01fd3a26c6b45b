-- ===== src/CreatorDatabase/Selection.antt =====
-- Which selections of categories validateMarketplaceCategorySelection lets pass.
use tiktok_outreach.Prelude.{
  ◌<◌, ◌≡◌, ◌↔◌, inl, inr, refl, sym, ap, ◌∙◌, subst, String, true, false, List, [], ◌∷◌, Option,
  none, some, str_eq, eq_iff, arith, any, length, Option-cases, All, some_inj,
}
use tiktok_outreach.CreatorDatabase.Catalog.{
  CatalogNode, is_off, is_child_of, by_id, has_duplicates, child_error, children_error,
  parent_error, validate_marketplace_category_selection,
}

abbrev pub Distinct : List String → Type 0
Distinct [] = Unit
Distinct (id ∷ ids) = All (λ k. str_eq k id ≡ false) ids × Distinct ids

module _ (parent : String) (catalog : List CatalogNode) where
  -- The catalog's node is a child of the parent that may be used as a filter.
  abbrev pub IsOffered : Option CatalogNode → Type 0
  IsOffered o =
      (c : CatalogNode) × (o ≡ some c)
      × (c.parent_category_id ≡ some parent)
      × (is_off c.available_for_creator_filter ≡ false)

  pub record IsValidSelection (children : List String) : Type 0 where
    pub root :
        (c : CatalogNode) × (by_id parent catalog ≡ some c)
        × (c.parent_category_id ≡ none)
        × (is_off c.enabled_for_creator_crawl ≡ false)
    pub some_child : 0 < length children
    pub distinct : Distinct children
    pub offered : All (λ id. IsOffered (by_id id catalog)) children

  none_equal_iff :
      (id : String) (ids : List String)
      → (any (λ k. str_eq k id) ids ≡ false) ↔ All (λ k. str_eq k id ≡ false) ids
  none_equal_iff id [] = (λ h. tt, λ h. refl)
  none_equal_iff id (k ∷ ids) = (
    λ h. (ground arith, (none_equal_iff id ids).0 (ground arith)),
    λ h. let rest = (none_equal_iff id ids).1 h.1 in let first = h.0 in ground arith,
  )

  duplicates_iff : (ids : List String) → (has_duplicates ids ≡ false) ↔ Distinct ids
  unfolding has_duplicates
  duplicates_iff [] = (λ h. tt, λ h. refl)
  duplicates_iff (id ∷ ids) = (
    λ h. ((none_equal_iff id ids).0 (ground arith), (duplicates_iff ids).0 (ground arith)),
    λ h.
        let rest = (duplicates_iff ids).1 h.1 in
        let first = (none_equal_iff id ids).1 h.0 in ground arith,
  )

  is_child_of_iff :
      (c : CatalogNode) → (is_child_of parent c ≡ true) ↔ (c.parent_category_id ≡ some parent)
  is_child_of_iff c = elim (Option-cases c.parent_category_id) [
    | inl e ↦ (λ h. ground arith, λ h. ground arith)
    | inr (p, e) ↦ (
      λ h. e ∙ ap some ((eq_iff p parent).0 (ground arith)),
      λ h.
          let same : str_eq p parent ≡ true = (eq_iff p parent).1 (some_inj (sym e ∙ h)) in
          rw e same,
    )
  ]

  child_iff : (o : Option CatalogNode) → (child_error parent catalog o ≡ none) ↔ IsOffered o
  child_iff none = (λ h. cc, λ h. let no = h.1 in cc)
  child_iff (some c) = (
    λ h. (c, refl, (is_child_of_iff c).0 (ground arith), ground arith),
    λ (d, e, child, available).
        let same : c ≡ d = some_inj e in
        let is_child = (is_child_of_iff d).1 child in
        subst (λ x. child_error parent catalog (some x) ≡ none) (sym same) (ground arith),
  )

  children_iff :
      (ids : List String)
      → (children_error parent catalog ids ≡ none) ↔ All (λ id. IsOffered (by_id id catalog)) ids
  unfolding children_error
  children_iff [] = (λ h. tt, λ h. refl)
  children_iff (id ∷ ids) = elim (Option-cases (child_error parent catalog (by_id id catalog))) [
    | inl e ↦ (
      λ h. ((child_iff (by_id id catalog)).0 e, (children_iff ids).0 (ground arith)),
      λ h. let rest = (children_iff ids).1 h.1 in ground arith,
    )
    | inr (x, e) ↦
        (λ h. ground arith, λ h. let first = (child_iff (by_id id catalog)).1 h.0 in ground arith)
  ]

  parent_iff :
      (o : Option CatalogNode)
      → (parent_error parent catalog o ≡ none) ↔ (
          (c : CatalogNode) × (o ≡ some c)
          × (c.parent_category_id ≡ none)
          × (is_off c.enabled_for_creator_crawl ≡ false))
  parent_iff none = (λ h. cc, λ h. let no = h.1 in cc)
  parent_iff (some c) = (
    λ h. (c, refl, ground arith, ground arith),
    λ (d, e, root, enabled).
        subst (λ x. parent_error parent catalog (some x) ≡ none) (sym (some_inj e)) (ground arith),
  )

  -- validateMarketplaceCategorySelection lets a selection pass exactly where the parent is a root
  -- of the catalog that is not disabled for the crawl, and the children are one at least, distinct,
  -- and each of them a child of the parent in the catalog that is not unavailable as a filter.
  pub validate-IsValidSelection :
      (children : List String)
      → (validate_marketplace_category_selection parent catalog children ≡ none)
        ↔ IsValidSelection children
  unfolding validate_marketplace_category_selection
  validate-IsValidSelection children =
      elim (Option-cases (parent_error parent catalog (by_id parent catalog))) [
        | inl e ↦ (
          λ h. record {
            root = (parent_iff (by_id parent catalog)).0 e;
            some_child = ground arith;
            distinct = (duplicates_iff children).0 (ground arith);
            offered = (children_iff children).0 (ground arith);
          },
          λ v.
              let distinct = (duplicates_iff children).1 v.distinct in
              let offered = (children_iff children).1 v.offered in
              let many = v.some_child in ground arith,
        )
        | inr (x, e) ↦ (
          λ h. ground arith,
          λ v. let root = (parent_iff (by_id parent catalog)).1 v.root in ground arith,
        )
      ]
