-- ===== src/CreatorDatabase/Rows/Offered.antt =====
-- That v2BasePartitionRows (apps/api/src/creator-database/marketplace-partitions.ts) makes a row for
-- each combination that the catalog and the bucket tables offer, and no other.
use tiktok_outreach.Prelude.{
  ◌*◌, ◌≡◌, ◌≢◌, refl, ap, inl, inr, String, Bool, true, false, not, ◌&&◌, List, [], Option, none,
  some, arith, str_eq, eq_iff, length, select, All-mem, All-of_mem, All-select_passed, mem-select,
  Locale, Option-cases, ◌∙◌,
}
use mathlib.Core.List.{Memᴰ}
use tiktok_outreach.Prelude.Sorting.{sort, All-sort, mem-sort}
use tiktok_outreach.CreatorDatabase.Buckets.{creator_follower_buckets, creator_gmv_buckets}
use tiktok_outreach.CreatorDatabase.Catalog.{
  CatalogNode, is_off, is_parent, is_offered_child, listed_before, children_of,
}
use tiktok_outreach.CreatorDatabase.Rows.{
  PartitionRow, parents_of, pairs, v2_base_partition_rows, rows_of_child, Numbered,
  base_rows-Numbered,
}
use tiktok_outreach.CreatorDatabase.Rows.Contents.{Combination, RowOf, OfParents, push_parents-Adds}

-- A root category of the catalog that is neither disabled nor unavailable, a child of it that is not
-- unavailable, a follower bucket and a GMV bucket.
pub record Offered (catalog : List CatalogNode) (x : Combination) : Type 0 where
  pub parent_there : Memᴰ x.parent catalog
  pub root : x.parent.parent_category_id ≡ none
  pub enabled : x.parent.enabled_for_creator_crawl ≢ some false
  pub available : x.parent.available_for_creator_filter ≢ some false
  pub child_there : Memᴰ x.child catalog
  pub child_of : x.child.parent_category_id ≡ some x.parent.category_id
  pub child_available : x.child.available_for_creator_filter ≢ some false
  pub bucket : Memᴰ x.bucket creator_follower_buckets
  pub gmv : Memᴰ x.gmv creator_gmv_buckets

on : (o : Option Bool) → is_off o ≡ false → o ≢ some false
on none h e = cc
on (some true) h e = cc
on (some false) h e = cc

off : (o : Option Bool) → o ≢ some false → is_off o ≡ false
off none h = refl
off (some true) h = refl
off (some false) h = absurd (h refl)

-- What a sorted selection has.
mem_selected :
    (before : CatalogNode → CatalogNode → Bool) (p : CatalogNode → Bool) (c : CatalogNode)
    (cs : List CatalogNode)
    → Memᴰ c (sort before (select p cs))
    → Memᴰ c cs × (p c ≡ true)
mem_selected before p c cs m =
    All-mem (λ x. Memᴰ x cs × (p x ≡ true)) c (sort before (select p cs))
      (All-sort before (λ x. Memᴰ x cs × (p x ≡ true)) (select p cs)
        (All-select_passed (λ x. Memᴰ x cs) p cs (All-of_mem (λ x. Memᴰ x cs) cs (λ x n. n))))
      m

is_parent_lem :
    (c : CatalogNode)
    → is_parent c ≡ true
    → (c.parent_category_id ≡ none)
      × (is_off c.enabled_for_creator_crawl ≡ false)
      × (is_off c.available_for_creator_filter ≡ false)
is_parent_lem c h = (ground arith, ground arith, ground arith)

parent_is :
    (c : CatalogNode)
    → c.parent_category_id ≡ none
    → is_off c.enabled_for_creator_crawl ≡ false
    → is_off c.available_for_creator_filter ≡ false
    → is_parent c ≡ true
parent_is c root enabled available = ground arith

child_lem :
    (p : String) (c : CatalogNode)
    → is_offered_child p c ≡ true
    → (c.parent_category_id ≡ some p) × (is_off c.available_for_creator_filter ≡ false)
child_lem p c h = elim (Option-cases c.parent_category_id) [
  | inl e ↦ let never = rw e at h in cc
  | inr (q, e) ↦
      let (same, available) = both (str_eq q p) _ (rw e at h) in
      (e ∙ ap some ((eq_iff q p).0 same), available)
]
  where
    both : (a b : Bool) → (a && not b) ≡ true → (a ≡ true) × (b ≡ false)
    both a b h = (ground arith, ground arith)

child_is :
    (p : String) (c : CatalogNode)
    → c.parent_category_id ≡ some p
    → is_off c.available_for_creator_filter ≡ false
    → is_offered_child p c ≡ true
child_is p c h available =
    let same : str_eq p p ≡ true = (eq_iff p p).1 refl in rw h (rw same (rw available refl))

module _ (l : Locale) (catalog : List CatalogNode) where
  given-Offered :
      (x : Combination) → OfParents l catalog (parents_of l catalog) x → Offered catalog x
  unfolding parents_of children_of
  given-Offered x o =
      let (there, parent) = mem_selected (listed_before l) is_parent x.parent catalog o.0 in
      let (child_there, child) =
        mem_selected (listed_before l) (is_offered_child x.parent.category_id) x.child catalog
          o.1 in
      let (root, enabled, available) = is_parent_lem x.parent parent in
      let (child_of, child_available) = child_lem x.parent.category_id x.child child in
      record {
        parent_there = there;
        root = root;
        enabled = on x.parent.enabled_for_creator_crawl enabled;
        available = on x.parent.available_for_creator_filter available;
        child_there = child_there;
        child_of = child_of;
        child_available = on x.child.available_for_creator_filter child_available;
        bucket = o.2.0;
        gmv = o.2.1;
      }

  Offered-given :
      (x : Combination) → Offered catalog x → OfParents l catalog (parents_of l catalog) x
  unfolding parents_of children_of
  Offered-given x o = (
    mem-sort (listed_before l) x.parent _ (
        mem-select is_parent x.parent catalog
          (parent_is x.parent o.root (off x.parent.enabled_for_creator_crawl o.enabled)
            (off x.parent.available_for_creator_filter o.available))
          o.parent_there),
    mem-sort (listed_before l) x.child _ (
        mem-select (is_offered_child x.parent.category_id) x.child catalog
          (child_is x.parent.category_id x.child o.child_of
            (off x.child.available_for_creator_filter o.child_available))
          o.child_there),
    (o.bucket, o.gmv),
  )

  -- The rows are those of the combinations on offer.
  pub record IsPartition (rows : List PartitionRow) : Type 0 where
    pub made : v2_base_partition_rows l catalog ≡ some rows
    pub sound :
        (row : PartitionRow) → Memᴰ row rows → (x : Combination) × Offered catalog x × RowOf x row
    pub complete :
        (x : Combination) → Offered catalog x → (row : PartitionRow) × Memᴰ row rows × RowOf x row
    pub size : length rows ≡ rows_of_child * pairs l catalog (parents_of l catalog)
    pub numbered : Numbered 0 rows

  -- v2BasePartitionRows never throws. Each row that it answers is for a root category of the catalog
  -- that is neither disabled nor unavailable, a child of it that is not unavailable, a follower bucket
  -- and a GMV bucket, and each such combination has a row with its IDs, codes, follower limits and GMV
  -- range. There are a hundred rows for every pair of such categories, and the rows' queue positions
  -- are the multiples of the gap in the order of the rows.
  pub base_rows-IsPartition : (rows : List PartitionRow) × IsPartition rows
  unfolding v2_base_partition_rows
  base_rows-IsPartition =
      let (rows, made, size, numbered) = base_rows-Numbered l catalog in
      let added = push_parents-Adds l catalog (parents_of l catalog) [] rows made in
      (
        rows,
        record {
          made = made;
          sound = λ row m. elim (added.sound row m) [
            | inl never ↦ elim never [ ]
            | inr (x, o, is) ↦ (x, given-Offered x o, is)
          ];
          complete = λ x o. added.complete x (Offered-given x o);
          size = size;
          numbered = numbered;
        },
      )
