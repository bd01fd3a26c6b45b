-- ===== src/CreatorDatabase/Rows.antt =====
-- v2BasePartitionRows (apps/api/src/creator-database/marketplace-partitions.ts).
pub mod Contents
pub mod Offered
use tiktok_outreach.Prelude.{
  ℕ, suc, ◌+◌, ◌*◌, ◌≤◌, ◌≡◌, refl, String, Bool, true, false, List, [], ◌∷◌, ◌++◌, Option, none,
  some, arith, leb, ltb, if◌then◌else◌, or_else, all, and_then, select, length, length-append,
  Locale,
}
use tiktok_outreach.Prelude.Sorting.{sort}
use tiktok_outreach.CreatorDatabase.Buckets.{
  FollowerBucket, GmvBucket, creator_follower_buckets, creator_gmv_buckets,
  creator_follower_hard_floor,
}
use tiktok_outreach.CreatorDatabase.Catalog.{CatalogNode, is_parent, listed_before, children_of}

abbrev pub base_queue_gap : ℕ
base_queue_gap = 1000000

-- A row; its key is a text made of the other fields.
pub record PartitionRow : Type 0 where
  pub parent_category_id : String
  pub parent_category_name : String
  pub child_category_id : String
  pub child_category_name : String
  pub follower_bucket : String
  pub followers_min : ℕ
  pub followers_max : Option ℕ
  pub gmv_bucket : String
  pub gmv_range : String
  pub queue_position : ℕ

abbrev name_of : CatalogNode → String
name_of c = or_else c.category_name c.category_id

module _ (parent child : CatalogNode) where
  abbrev pub new_row : FollowerBucket → GmvBucket → ℕ → PartitionRow
  new_row bucket gmv n = record {
    parent_category_id = parent.category_id;
    parent_category_name = name_of parent;
    child_category_id = child.category_id;
    child_category_name = name_of child;
    follower_bucket = bucket.code;
    followers_min = bucket.min;
    followers_max = bucket.max;
    gmv_bucket = gmv.code;
    gmv_range = gmv.range;
    queue_position = suc n * base_queue_gap;
  }

  -- The inner loops, on the rows pushed before; `none` where it throws.
  unfoldable pub push_gmvs :
      FollowerBucket → List GmvBucket → List PartitionRow → Option (List PartitionRow)
  push_gmvs bucket [] rows = some rows
  push_gmvs bucket (gmv ∷ gmvs) rows =
      let rest = push_gmvs bucket gmvs (rows ++ (new_row bucket gmv (length rows) ∷ [])) in
      if ltb bucket.min creator_follower_hard_floor then none else rest

  unfoldable pub push_buckets : List FollowerBucket → List PartitionRow → Option (List PartitionRow)
  unfolding push_gmvs
  push_buckets [] rows = some rows
  push_buckets (bucket ∷ buckets) rows =
      and_then (push_gmvs bucket creator_gmv_buckets rows) (push_buckets buckets)

unfoldable pub push_children :
    CatalogNode → List CatalogNode → List PartitionRow → Option (List PartitionRow)
unfolding push_buckets
push_children parent [] rows = some rows
push_children parent (child ∷ children) rows =
    and_then (push_buckets parent child creator_follower_buckets rows)
      (push_children parent children)

module _ (l : Locale) (catalog : List CatalogNode) where
  unfoldable pub push_parents : List CatalogNode → List PartitionRow → Option (List PartitionRow)
  unfolding children_of push_children
  push_parents [] rows = some rows
  push_parents (parent ∷ parents) rows =
      and_then (push_children parent (children_of l parent.category_id catalog) rows)
        (push_parents parents)

  unfoldable pub parents_of : List CatalogNode
  parents_of = sort (listed_before l) (select is_parent catalog)

  unfoldable pub v2_base_partition_rows : Option (List PartitionRow)
  unfolding push_parents parents_of
  v2_base_partition_rows = push_parents parents_of []

-- The rows have the positions that follow `k`.
abbrev pub Numbered : ℕ → List PartitionRow → Type 0
Numbered k [] = Unit
Numbered k (row ∷ rows) = (row.queue_position ≡ suc k * base_queue_gap) × Numbered (suc k) rows

-- How many pairs of a parent and a child the catalog offers, in the order of the loops.
unfoldable pub pairs : Locale → List CatalogNode → List CatalogNode → ℕ
pairs l catalog [] = 0
pairs l catalog (parent ∷ parents) =
    length (children_of l parent.category_id catalog) + pairs l catalog parents

-- A loop that pushes `n` rows, whatever is there.
abbrev Pushes : (List PartitionRow → Option (List PartitionRow)) → ℕ → Type 0
Pushes push n =
    (rows : List PartitionRow)
    → Numbered 0 rows
    → (rows' : List PartitionRow) × (push rows ≡ some rows')
      × (length rows' ≡ n + length rows)
      × Numbered 0 rows'

Numbered-append :
    (k : ℕ) (rows : List PartitionRow) (row : PartitionRow)
    → Numbered k rows
    → row.queue_position ≡ suc (k + length rows) * base_queue_gap
    → Numbered k (rows ++ (row ∷ []))
Numbered-append k [] row h e = (omega (arith, e), tt)
Numbered-append k (r ∷ rows) row h e =
    (h.0, Numbered-append (suc k) rows row h.1 (omega (arith, e)))

-- One loop after another.
then-Pushes :
    (f g : List PartitionRow → Option (List PartitionRow)) (m n k : ℕ)
    → k ≡ m + n
    → Pushes f m
    → Pushes g n
    → Pushes (λ rows. and_then (f rows) g) k
then-Pushes f g m n k e pf pg rows h =
    let (rows1, pushed1, size1, numbered1) = pf rows h in
    let (rows2, pushed2, size2, numbered2) = pg rows1 numbered1 in
    (rows2, rw pushed1 pushed2, omega (arith, e, size1, size2), numbered2)

module _ (parent child : CatalogNode) where
  push_gmvs-Pushes :
      (bucket : FollowerBucket) (gmvs : List GmvBucket)
      → creator_follower_hard_floor ≤ bucket.min
      → Pushes (push_gmvs parent child bucket gmvs) (length gmvs)
  unfolding push_gmvs
  push_gmvs-Pushes bucket [] high rows h = (rows, refl, omega arith, h)
  push_gmvs-Pushes bucket (gmv ∷ gmvs) high rows h =
      let row = new_row parent child bucket gmv (length rows) in
      let more = Numbered-append 0 rows row h (omega arith) in
      let (rows', pushed, size, numbered) =
        push_gmvs-Pushes bucket gmvs high (rows ++ (row ∷ [])) more in
      let low : ltb bucket.min creator_follower_hard_floor ≡ false = ground arith in
      (rows', rw low pushed, omega (arith, size, length-append rows (row ∷ [])), numbered)

  abbrev is_high : FollowerBucket → Bool
  is_high b = leb creator_follower_hard_floor b.min

  push_buckets-Pushes :
      (buckets : List FollowerBucket)
      → all is_high buckets ≡ true
      → Pushes (push_buckets parent child buckets) (length buckets * length creator_gmv_buckets)
  unfolding push_buckets
  push_buckets-Pushes [] high = λ rows h. (rows, refl, omega arith, h)
  push_buckets-Pushes (b ∷ buckets) high =
      let high_b : creator_follower_hard_floor ≤ b.min = ground arith in
      let high_rest : all is_high buckets ≡ true = ground arith in
      then-Pushes (push_gmvs parent child b creator_gmv_buckets) (push_buckets parent child buckets)
        (length creator_gmv_buckets) (length buckets * length creator_gmv_buckets)
        (length (b ∷ buckets) * length creator_gmv_buckets) (omega arith)
        (push_gmvs-Pushes b creator_gmv_buckets high_b) (push_buckets-Pushes buckets high_rest)

-- A child has a row for each of the 25 follower buckets and 4 GMV buckets.
abbrev pub rows_of_child : ℕ
rows_of_child = 100

child-Pushes :
    (parent child : CatalogNode)
    → Pushes (push_buckets parent child creator_follower_buckets) rows_of_child
child-Pushes parent child = push_buckets-Pushes parent child creator_follower_buckets refl

push_children-Pushes :
    (parent : CatalogNode) (children : List CatalogNode)
    → Pushes (push_children parent children) (rows_of_child * length children)
unfolding push_children
push_children-Pushes parent [] = λ rows h. (rows, refl, omega arith, h)
push_children-Pushes parent (child ∷ children) =
    then-Pushes (push_buckets parent child creator_follower_buckets) (push_children parent children)
      rows_of_child (rows_of_child * length children) (rows_of_child * length (child ∷ children))
      (omega arith) (child-Pushes parent child) (push_children-Pushes parent children)

module _ (l : Locale) (catalog : List CatalogNode) where
  push_parents-Pushes :
      (parents : List CatalogNode)
      → Pushes (push_parents l catalog parents) (rows_of_child * pairs l catalog parents)
  unfolding push_parents pairs
  push_parents-Pushes [] = λ rows h. (rows, refl, omega arith, h)
  push_parents-Pushes (parent ∷ parents) =
      let children = children_of l parent.category_id catalog in
      then-Pushes (push_children parent children) (push_parents l catalog parents)
        (rows_of_child * length children) (rows_of_child * pairs l catalog parents)
        (rows_of_child * pairs l catalog (parent ∷ parents)) (omega arith)
        (push_children-Pushes parent children) (push_parents-Pushes parents)

  -- How many rows there are, and their positions.
  pub base_rows-Numbered :
      (rows : List PartitionRow) × (v2_base_partition_rows l catalog ≡ some rows)
      × (length rows ≡ rows_of_child * pairs l catalog (parents_of l catalog))
      × Numbered 0 rows
  unfolding v2_base_partition_rows
  base_rows-Numbered =
      let (rows, pushed, size, numbered) = push_parents-Pushes (parents_of l catalog) [] tt in
      (rows, pushed, omega (arith, size), numbered)
