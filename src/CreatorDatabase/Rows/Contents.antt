-- ===== src/CreatorDatabase/Rows/Contents.antt =====
-- Which rows v2BasePartitionRows (apps/api/src/creator-database/marketplace-partitions.ts) makes.
use tiktok_outreach.Prelude.{
  ℕ, ◌≡◌, ◌⊎◌, refl, sym, subst, ap, inl, inr, List, [], ◌∷◌, ◌++◌, Option, some, some_inj, ltb,
  length, and_then, Bool-cases, Option-cases, Locale,
}
use mathlib.Core.List.{Memᴰ}
use tiktok_outreach.CreatorDatabase.Buckets.{
  FollowerBucket, GmvBucket, creator_follower_buckets, creator_gmv_buckets,
  creator_follower_hard_floor,
}
use tiktok_outreach.CreatorDatabase.Catalog.{CatalogNode, children_of}
use tiktok_outreach.CreatorDatabase.Rows.{
  PartitionRow, new_row, push_gmvs, push_buckets, push_children, push_parents,
}

-- What a row is for.
pub record Combination : Type 0 where
  pub parent : CatalogNode
  pub child : CatalogNode
  pub bucket : FollowerBucket
  pub gmv : GmvBucket

pub record RowOf (x : Combination) (row : PartitionRow) : Type 0 where
  pub parent : row.parent_category_id ≡ x.parent.category_id
  pub child : row.child_category_id ≡ x.child.category_id
  pub bucket : row.follower_bucket ≡ x.bucket.code
  pub followers_min : row.followers_min ≡ x.bucket.min
  pub followers_max : row.followers_max ≡ x.bucket.max
  pub gmv : row.gmv_bucket ≡ x.gmv.code
  pub range : row.gmv_range ≡ x.gmv.range

-- The rows that a loop adds are for the combinations that it is given, and each has one.
pub record Added (O : Combination → Type 0) (rows rows' : List PartitionRow) : Type 0 where
  pub kept : (row : PartitionRow) → Memᴰ row rows → Memᴰ row rows'
  pub sound :
      (row : PartitionRow)
      → Memᴰ row rows'
      → Memᴰ row rows ⊎ ((x : Combination) × O x × RowOf x row)
  pub complete : (x : Combination) → O x → (row : PartitionRow) × Memᴰ row rows' × RowOf x row

abbrev pub Adds : (List PartitionRow → Option (List PartitionRow)) → (Combination → Type 0) → Type 0
Adds push O = (rows rows' : List PartitionRow) → push rows ≡ some rows' → Added O rows rows'

Added-trans :
    {O P Q : Combination → Type 0} {rows mid rows' : List PartitionRow}
    → ((x : Combination) → O x → P x ⊎ Q x)
    → ((x : Combination) → P x → O x)
    → ((x : Combination) → Q x → O x)
    → Added P rows mid
    → Added Q mid rows'
    → Added O rows rows'
Added-trans split from_p from_q a b = record {
  kept = λ row m. b.kept row (a.kept row m);
  sound = λ row m. elim (b.sound row m) [
    | inl earlier ↦ elim (a.sound row earlier) [
      | inl first ↦ inl first
      | inr (x, o, is) ↦ inr (x, from_p x o, is)
    ]
    | inr (x, o, is) ↦ inr (x, from_q x o, is)
  ];
  complete = λ x o. elim (split x o) [
    | inl p ↦ let (row, m, is) = a.complete x p in (row, b.kept row m, is)
    | inr q ↦ b.complete x q
  ];
}

-- A loop that pushes nothing.
Adds-none : (O : Combination → Type 0) → ((x : Combination) → O x → ⊥) → Adds some O
Adds-none O off rows rows' h =
    subst (Added O rows) (some_inj h)
      (record { kept = λ row m. m; sound = λ row m. inl m; complete = λ x o. absurd (off x o) })

then-Adds :
    (f g : List PartitionRow → Option (List PartitionRow)) {O P Q : Combination → Type 0}
    → ((x : Combination) → O x → P x ⊎ Q x)
    → ((x : Combination) → P x → O x)
    → ((x : Combination) → Q x → O x)
    → Adds f P
    → Adds g Q
    → Adds (λ rows. and_then (f rows) g) O
then-Adds f g split from_p from_q pf pg rows rows' h = elim (Option-cases (f rows)) [
  | inl e ↦ let never = rw e at h in cc
  | inr (mid, e) ↦ Added-trans split from_p from_q (pf rows mid e) (pg mid rows' (rw e at h))
]

mem_before :
    (rows : List PartitionRow) (r row : PartitionRow) → Memᴰ r rows → Memᴰ r (rows ++ (row ∷ []))
mem_before [] r row m = elim m [ ]
mem_before (x ∷ xs) r row (Memᴰ.head e) = Memᴰ.head e
mem_before (x ∷ xs) r row (Memᴰ.tail m) = Memᴰ.tail (mem_before xs r row m)

mem_last : (rows : List PartitionRow) (row : PartitionRow) → Memᴰ row (rows ++ (row ∷ []))
mem_last [] row = Memᴰ.head refl
mem_last (x ∷ xs) row = Memᴰ.tail (mem_last xs row)

mem_appended :
    (rows : List PartitionRow) (r row : PartitionRow)
    → Memᴰ r (rows ++ (row ∷ []))
    → Memᴰ r rows ⊎ (r ≡ row)
mem_appended [] r row (Memᴰ.head e) = inr e
mem_appended [] r row (Memᴰ.tail m) = elim m [ ]
mem_appended (x ∷ xs) r row (Memᴰ.head e) = inl (Memᴰ.head e)
mem_appended (x ∷ xs) r row (Memᴰ.tail m) = elim (mem_appended xs r row m) [
  | inl k ↦ inl (Memᴰ.tail k)
  | inr e ↦ inr e
]

-- One row pushed.
Added-one :
    (O : Combination → Type 0) (rows : List PartitionRow) (row : PartitionRow) (x : Combination)
    → RowOf x row
    → O x
    → ((y : Combination) → O y → RowOf y row)
    → Added O rows (rows ++ (row ∷ []))
Added-one O rows row x is o each = record {
  kept = λ r m. mem_before rows r row m;
  sound = λ r m. elim (mem_appended rows r row m) [
    | inl k ↦ inl k
    | inr e ↦ inr (x, o, subst (RowOf x) (sym e) is)
  ];
  complete = λ y p. (row, mem_last rows row, each y p);
}

module _ (parent child : CatalogNode) where
  -- The combinations that the loops over buckets are given.
  abbrev OfGmvs : FollowerBucket → List GmvBucket → Combination → Type 0
  OfGmvs bucket gmvs x =
      (x.parent ≡ parent) × (x.child ≡ child) × (x.bucket ≡ bucket) × Memᴰ x.gmv gmvs

  abbrev OfOne : FollowerBucket → GmvBucket → Combination → Type 0
  OfOne bucket gmv x = (x.parent ≡ parent) × (x.child ≡ child) × (x.bucket ≡ bucket) × (x.gmv ≡ gmv)

  row_of :
      (bucket : FollowerBucket) (gmv : GmvBucket) (n : ℕ) (x : Combination)
      → OfOne bucket gmv x
      → RowOf x (new_row parent child bucket gmv n)
  row_of bucket gmv n x o = record {
    parent = ap (λ k. k.category_id) (sym o.0);
    child = ap (λ k. k.category_id) (sym o.1);
    bucket = ap (λ k. k.code) (sym o.2);
    followers_min = ap (λ k. k.min) (sym o.2);
    followers_max = ap (λ k. k.max) (sym o.2);
    gmv = ap (λ k. k.code) (sym o.3);
    range = ap (λ k. k.range) (sym o.3);
  }

  abbrev OfBuckets : List FollowerBucket → Combination → Type 0
  OfBuckets buckets x =
      (x.parent ≡ parent)
      × (x.child ≡ child)
      × Memᴰ x.bucket buckets
      × Memᴰ x.gmv creator_gmv_buckets

  push_gmvs-Adds :
      (bucket : FollowerBucket) (gmvs : List GmvBucket)
      → Adds (push_gmvs parent child bucket gmvs) (OfGmvs bucket gmvs)
  unfolding push_gmvs
  push_gmvs-Adds bucket [] rows rows' h =
      Adds-none (OfGmvs bucket []) (λ x o. elim o.3 [ ]) rows rows' h
  push_gmvs-Adds bucket (gmv ∷ gmvs) rows rows' h =
      let row = new_row parent child bucket gmv (length rows) in
      let here : Combination = record {
        parent = parent;
        child = child;
        bucket = bucket;
        gmv = gmv;
      } in
      elim (Bool-cases (ltb bucket.min creator_follower_hard_floor)) [
        | inl low ↦ let never = rw low at h in cc
        | inr high ↦
            Added-trans {O = OfGmvs bucket (gmv ∷ gmvs)} {P = OfOne bucket gmv}
              {Q = OfGmvs bucket gmvs}
              (λ x o. elim o.3 [
                | Memᴰ.head e ↦ inl (o.0, o.1, o.2, e)
                | Memᴰ.tail m ↦ inr (o.0, o.1, o.2, m)
              ])
              (λ x o. (o.0, o.1, o.2, Memᴰ.head o.3)) (λ x o. (o.0, o.1, o.2, Memᴰ.tail o.3))
              (Added-one (OfOne bucket gmv) rows row here
                (row_of bucket gmv (length rows) here (refl, refl, refl, refl))
                (refl, refl, refl, refl) (row_of bucket gmv (length rows)))
              (push_gmvs-Adds bucket gmvs (rows ++ (row ∷ [])) rows' (rw high at h))
      ]

  push_buckets-Adds :
      (buckets : List FollowerBucket) → Adds (push_buckets parent child buckets) (OfBuckets buckets)
  unfolding push_buckets
  push_buckets-Adds [] = Adds-none (OfBuckets []) (λ x o. elim o.2 [ ])
  push_buckets-Adds (b ∷ buckets) =
      then-Adds (push_gmvs parent child b creator_gmv_buckets) (push_buckets parent child buckets)
        {O = OfBuckets (b ∷ buckets)} {P = OfGmvs b creator_gmv_buckets} {Q = OfBuckets buckets}
        (λ x o. elim o.2 [
          | Memᴰ.head e ↦ inl (o.0, o.1, e, o.3)
          | Memᴰ.tail m ↦ inr (o.0, o.1, m, o.3)
        ])
        (λ x o. (o.0, o.1, Memᴰ.head o.2, o.3)) (λ x o. (o.0, o.1, Memᴰ.tail o.2, o.3))
        (push_gmvs-Adds b creator_gmv_buckets) (push_buckets-Adds buckets)

-- A follower bucket and a GMV bucket of the tables.
abbrev pub Bucketed : Combination → Type 0
Bucketed x = Memᴰ x.bucket creator_follower_buckets × Memᴰ x.gmv creator_gmv_buckets

abbrev OfChildren : CatalogNode → List CatalogNode → Combination → Type 0
OfChildren parent children x = (x.parent ≡ parent) × Memᴰ x.child children × Bucketed x

push_children-Adds :
    (parent : CatalogNode) (children : List CatalogNode)
    → Adds (push_children parent children) (OfChildren parent children)
unfolding push_children
push_children-Adds parent [] = Adds-none (OfChildren parent []) (λ x o. elim o.1 [ ])
push_children-Adds parent (child ∷ children) =
    then-Adds (push_buckets parent child creator_follower_buckets) (push_children parent children)
      {O = OfChildren parent (child ∷ children)}
      {P = OfBuckets parent child creator_follower_buckets} {Q = OfChildren parent children}
      (λ x o. elim o.1 [
        | Memᴰ.head e ↦ inl (o.0, e, o.2.0, o.2.1)
        | Memᴰ.tail m ↦ inr (o.0, m, o.2)
      ])
      (λ x o. (o.0, Memᴰ.head o.1, (o.2, o.3))) (λ x o. (o.0, Memᴰ.tail o.1, o.2))
      (push_buckets-Adds parent child creator_follower_buckets) (push_children-Adds parent children)

module _ (l : Locale) (catalog : List CatalogNode) where
  abbrev pub OfParents : List CatalogNode → Combination → Type 0
  OfParents parents x =
      Memᴰ x.parent parents × Memᴰ x.child (children_of l x.parent.category_id catalog) × Bucketed x

  pub push_parents-Adds :
      (parents : List CatalogNode) → Adds (push_parents l catalog parents) (OfParents parents)
  unfolding push_parents
  push_parents-Adds [] = Adds-none (OfParents []) (λ x o. elim o.0 [ ])
  push_parents-Adds (parent ∷ parents) =
      then-Adds (push_children parent (children_of l parent.category_id catalog))
        (push_parents l catalog parents) {O = OfParents (parent ∷ parents)}
        {P = OfChildren parent (children_of l parent.category_id catalog)} {Q = OfParents parents}
        (λ x o. elim o.0 [
          | Memᴰ.head e ↦
              inl (e, subst (λ p. Memᴰ x.child (children_of l p.category_id catalog)) e o.1, o.2)
          | Memᴰ.tail m ↦ inr (m, o.1, o.2)
        ])
        (λ x o. (
          Memᴰ.head o.0,
          subst (λ p. Memᴰ x.child (children_of l p.category_id catalog)) (sym o.0) o.1,
          o.2,
        ))
        (λ x o. (Memᴰ.tail o.0, o.1, o.2))
        (push_children-Adds parent (children_of l parent.category_id catalog))
        (push_parents-Adds parents)
