-- ===== src/Prelude/Sorting.antt =====
-- `sort` of the language: a stable sort. `before a b` says that the comparison function is at most 0
-- at `a` and `b`.
use Prim.Native.Nat.{ℕ, zero, suc}
use mathlib.Core.Path.{◌≡◌, refl, sym}
use mathlib.Core.Logic.{◌≢◌, ◌⊎◌, inl, inr}
use mathlib.Core.Bool.{Bool, true}
use mathlib.Core.List.{List, [], ◌∷◌, Memᴰ}
use native.Mathlib.Omega.{arith}
use tiktok_outreach.Prelude.Tests.{if◌then◌else◌, Bool-cases}
use tiktok_outreach.Prelude.Lists.{
  length, take, drop, select, All, All-imp, All-take, All-select, All-mem, mem_of_mem-drop,
  Distinct,
}

module _ {ℓ} {A : Type ℓ} (before : A → A → Bool) where
  insert : A → List A → List A
  insert x [] = x ∷ []
  insert x (y ∷ ys) = let rest = insert x ys in if before x y then x ∷ y ∷ ys else y ∷ rest

  unfoldable pub sort : List A → List A
  unfolding insert
  sort [] = []
  sort (x ∷ xs) = insert x (sort xs)

  length-insert : (x : A) (xs : List A) → length (insert x xs) ≡ length (x ∷ xs)
  unfolding insert
  length-insert x [] = refl
  length-insert x (y ∷ ys) = ground (arith, length-insert x ys)

  pub length-sort : (xs : List A) → length (sort xs) ≡ length xs
  unfolding sort
  length-sort [] = refl
  length-sort (x ∷ xs) = omega (arith, length-insert x (sort xs), length-sort xs)

  All-insert {κ} : (P : A → Type κ) (x : A) (xs : List A) → P x → All P xs → All P (insert x xs)
  unfolding insert
  All-insert P x [] h hs = (h, tt)
  All-insert P x (y ∷ ys) h hs = ground (arith, All-insert P x ys h hs.1, hs.0, hs.1, h)

  pub All-sort {κ} : (P : A → Type κ) (xs : List A) → All P xs → All P (sort xs)
  unfolding sort
  All-sort P [] h = tt
  All-sort P (x ∷ xs) h = All-insert P x (sort xs) h.0 (All-sort P xs h.1)

  mem-insert_self : (x : A) (xs : List A) → Memᴰ x (insert x xs)
  unfolding insert
  mem-insert_self x [] = Memᴰ.head refl
  mem-insert_self x (y ∷ ys) = elim (Bool-cases (before x y)) [
    | inl e ↦ rw e (Memᴰ.head refl)
    | inr e ↦ rw e (Memᴰ.tail (mem-insert_self x ys))
  ]

  mem-insert : (a x : A) (xs : List A) → Memᴰ a xs → Memᴰ a (insert x xs)
  unfolding insert
  mem-insert a x [] m = Memᴰ.tail m
  mem-insert a x (y ∷ ys) (Memᴰ.head p) = elim (Bool-cases (before x y)) [
    | inl e ↦ rw e (Memᴰ.tail (Memᴰ.head p))
    | inr e ↦ rw e (Memᴰ.head p)
  ]
  mem-insert a x (y ∷ ys) (Memᴰ.tail m) = elim (Bool-cases (before x y)) [
    | inl e ↦ rw e (Memᴰ.tail (Memᴰ.tail m))
    | inr e ↦ rw e (Memᴰ.tail (mem-insert a x ys m))
  ]

  pub mem-sort : (a : A) (xs : List A) → Memᴰ a xs → Memᴰ a (sort xs)
  unfolding sort
  mem-sort a [] m = elim m [ ]
  mem-sort a (x ∷ xs) (Memᴰ.head p) = rw p (mem-insert_self x (sort xs))
  mem-sort a (x ∷ xs) (Memᴰ.tail m) = mem-insert a x (sort xs) (mem-sort a xs m)

  -- Each entry stands before every later one.
  abbrev pub IsSorted : List A → Type ℓ
  IsSorted [] = Unit
  IsSorted (x ∷ xs) = All (λ y. before x y ≡ true) xs × IsSorted xs

  module _ (total : (a b : A) → (before a b ≡ true) ⊎ (before b a ≡ true))
      (trans : (a b c : A) → before a b ≡ true → before b c ≡ true → before a c ≡ true) where
    insert-IsSorted : (x : A) (xs : List A) → IsSorted xs → IsSorted (insert x xs)
    unfolding insert
    insert-IsSorted x [] s = (tt, tt)
    insert-IsSorted x (y ∷ ys) s = elim (Bool-cases (before x y)) [
      | inl e ↦ rw e ((e, All-imp _ _ (λ z h. trans x y z e h) ys s.0), s)
      | inr e ↦ rw e (
        All-insert (λ z. before y z ≡ true) x ys (ground (arith, total x y)) s.0,
        insert-IsSorted x ys s.1,
      )
    ]

    pub sort-IsSorted : (xs : List A) → IsSorted (sort xs)
    unfolding sort
    sort-IsSorted [] = tt
    sort-IsSorted (x ∷ xs) = insert-IsSorted x (sort xs) (sort-IsSorted xs)

module _ {ℓ κ} {A : Type ℓ} (R : A → A → Type κ) where
  -- Every two entries are related, as they stand in the list.
  abbrev pub Each : List A → Type (ℓ ⊔ κ)
  Each [] = Unit
  Each (x ∷ xs) = All (R x) xs × Each xs

  pub Each-take : (n : ℕ) (xs : List A) → Each xs → Each (take n xs)
  Each-take zero xs h = tt
  Each-take (suc n) [] h = tt
  Each-take (suc n) (x ∷ xs) h = (All-take (R x) n xs h.0, Each-take n xs h.1)

  pub Each-select : (p : A → Bool) (xs : List A) → Each xs → Each (select p xs)
  Each-select p [] h = tt
  Each-select p (x ∷ xs) h = ground (arith, All-select (R x) p xs h.0, Each-select p xs h.1)

  module _ (symmetric : (a b : A) → R a b → R b a) (before : A → A → Bool) where
    Each-insert : (x : A) (xs : List A) → All (R x) xs → Each xs → Each (insert before x xs)
    unfolding insert
    Each-insert x [] h e = (tt, tt)
    Each-insert x (y ∷ ys) h e =
        ground
          (arith, Each-insert x ys h.1 e.1, All-insert before (R y) x ys (symmetric x y h.0) e.0)

    pub Each-sort : (xs : List A) → Each xs → Each (sort before xs)
    unfolding sort
    Each-sort [] e = tt
    Each-sort (x ∷ xs) e =
        Each-insert x (sort before xs) (All-sort before (R x) xs e.0) (Each-sort xs e.1)

module _ {ℓ} {A : Type ℓ} (before : A → A → Bool) where
  -- What a sorted list has among its first `n` entries stands before all the others.
  pub IsSorted-take-drop :
      (n : ℕ) (a b : A) (xs : List A)
      → IsSorted before xs
      → Memᴰ a (take n xs)
      → Memᴰ b (drop n xs)
      → before a b ≡ true
  IsSorted-take-drop zero a b xs s m k = elim m [ ]
  IsSorted-take-drop (suc n) a b [] s m k = elim m [ ]
  IsSorted-take-drop (suc n) a b (x ∷ xs) s (Memᴰ.head e) k =
      rw e (All-mem (λ y. before x y ≡ true) b xs s.0 (mem_of_mem-drop n b xs k))
  IsSorted-take-drop (suc n) a b (x ∷ xs) s (Memᴰ.tail m) k = IsSorted-take-drop n a b xs s.1 m k

module _ {ℓ} {A : Type ℓ} (before : A → A → Bool) (key : A → ℕ) where
  Distinct-insert :
      (x : A) (xs : List A)
      → All (λ y. key y ≢ key x) xs
      → Distinct key xs
      → Distinct key (insert before x xs)
  unfolding insert
  Distinct-insert x [] h d = (tt, tt)
  Distinct-insert x (y ∷ ys) h d = elim (Bool-cases (before x y)) [
    | inl e ↦ rw e (h, d)
    | inr e ↦ rw e (
      All-insert before (λ z. key z ≢ key y) x ys (λ q. h.0 (sym q)) d.0,
      Distinct-insert x ys h.1 d.1,
    )
  ]

  pub Distinct-sort : (xs : List A) → Distinct key xs → Distinct key (sort before xs)
  unfolding sort
  Distinct-sort [] d = tt
  Distinct-sort (x ∷ xs) d =
      Distinct-insert x (sort before xs) (All-sort before (λ y. key y ≢ key x) xs d.0)
        (Distinct-sort xs d.1)
