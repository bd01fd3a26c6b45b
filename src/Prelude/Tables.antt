-- ===== src/Prelude/Tables.antt =====
-- Tables of a database as lists of rows: the client's `updateMany`, `deleteMany` and `upsert`.
use Prim.Native.Nat.{ℕ}
use tiktok_outreach.Prelude.Tests.{if◌then◌else◌, ◌==◌, ==_iff, Bool-cases}
use tiktok_outreach.Prelude.Lists.{find, select, All, All-mem, Distinct}
use mathlib.Core.Path.{◌≡◌, refl, sym, ap, ◌∙◌, subst}
use mathlib.Core.Bool.{Bool, true, false, not}
use mathlib.Core.Logic.{◌≢◌, inl, inr}
use mathlib.Core.List.{List, [], ◌∷◌, Memᴰ}
use mathlib.Core.Option.{Option, none, some}
use mathlib.Core.Option
use native.Mathlib.Omega.{arith}

module _ {ℓ} {A : Type ℓ} where
  abbrev pub when : (A → Bool) → (A → A) → A → A
  when p f x = if p x then f x else x

  -- `updateMany`, and `update` where the test is of a unique field.
  abbrev pub update_where : (A → Bool) → (A → A) → List A → List A
  update_where p f [] = []
  update_where p f (x ∷ xs) = when p f x ∷ update_where p f xs

  abbrev pub delete_where : (A → Bool) → List A → List A
  delete_where p xs = select (λ x. not (p x)) xs

  -- `upsert` by a unique field.
  abbrev pub upsert : (A → Bool) → (A → A) → A → List A → List A
  upsert p f new [] = new ∷ []
  upsert p f new (x ∷ xs) = let rest = upsert p f new xs in if p x then f x ∷ xs else x ∷ rest

  -- The row that an upsert answers, on the row that was there.
  abbrev pub upserted : (A → A) → A → Option A → A
  upserted f new none = new
  upserted f new (some x) = f x

module _ {ℓ} {A : Type ℓ} (q p : A → Bool) (f : A → A) where
  -- A row is found after an update where it was found before it, if the test reads no changed field.
  pub find-update_where :
      ((x : A) → q (f x) ≡ q x)
      → (xs : List A) → find q (update_where p f xs) ≡ Option.map (when p f) (find q xs)
  find-update_where h [] = refl
  find-update_where h (x ∷ xs) = elim (Bool-cases (p x)) [
    | inl e ↦ elim (Bool-cases (q x)) [
      | inl g ↦ rw e (rw (h x) (rw g (rw e refl)))
      | inr g ↦ rw e (rw (h x) (rw g (find-update_where h xs)))
    ]
    | inr e ↦ elim (Bool-cases (q x)) [
      | inl g ↦ rw e (rw g (rw e refl))
      | inr g ↦ rw e (rw g (find-update_where h xs))
    ]
  ]

-- An update of other rows changes no row that the field finds.
pub find-update_other {ℓ} :
    {A : Type ℓ} (q p : A → Bool) (f : A → A)
    → ((x : A) → p x ≡ true → q x ≡ false)
    → ((x : A) → q (f x) ≡ q x)
    → (xs : List A) → find q (update_where p f xs) ≡ find q xs
find-update_other q p f off same [] = refl
find-update_other q p f off same (x ∷ xs) = elim (Bool-cases (p x)) [
  | inl e ↦ rw e (rw (same x) (rw (off x e) (find-update_other q p f off same xs)))
  | inr e ↦ elim (Bool-cases (q x)) [
    | inl g ↦ rw e (rw g refl)
    | inr g ↦ rw e (rw g (find-update_other q p f off same xs))
  ]
]

pub find-delete_where {ℓ} :
    {A : Type ℓ} (q : A → Bool) (xs : List A) → find q (delete_where q xs) ≡ none
find-delete_where q [] = refl
find-delete_where q (x ∷ xs) = elim (Bool-cases (q x)) [
  | inl e ↦ rw e (find-delete_where q xs)
  | inr e ↦ rw e (rw e (find-delete_where q xs))
]

module _ {ℓ} {A : Type ℓ} (q : A → Bool) where
  pub find_passed : (xs : List A) (a : A) → find q xs ≡ some a → q a ≡ true
  find_passed [] a h = cc
  find_passed (x ∷ xs) a h = elim (Bool-cases (q x)) [
    | inl e ↦ ground arith
    | inr e ↦ find_passed xs a (ground arith)
  ]

  -- The row that a unique field finds is the row that an update by this field changes.
  pub find-update_found :
      (f : A → A)
      → ((x : A) → q (f x) ≡ q x)
      → (xs : List A) (a : A) → find q xs ≡ some a
      → find q (update_where q f xs) ≡ some (f a)
  find-update_found f h xs a e = find-update_where q q f h xs ∙ rw e (rw (find_passed xs a e) refl)

-- A row stays where it was if no deleted row is found by its field.
pub find-delete_other {ℓ} :
    {A : Type ℓ} (q p : A → Bool) (xs : List A)
    → ((x : A) → q x ≡ true → p x ≡ false)
    → find q (delete_where p xs) ≡ find q xs
find-delete_other q p [] h = refl
find-delete_other q p (x ∷ xs) h = elim (Bool-cases (q x)) [
  | inl e ↦ rw (h x e) (rw e refl)
  | inr e ↦ elim (Bool-cases (p x)) [
    | inl g ↦ rw g (rw e (find-delete_other q p xs h))
    | inr g ↦ rw g (rw e (find-delete_other q p xs h))
  ]
]

-- A row is found by its key.
pub find-key {ℓ} :
    {A : Type ℓ} (key : A → ℕ) (xs : List A) (a : A)
    → Distinct key xs
    → Memᴰ a xs
    → find (λ x. key x == key a) xs ≡ some a
find-key key [] a d m = elim m [ ]
find-key key (x ∷ xs) a d (Memᴰ.head e) =
    let here : (key x == key a) ≡ true = (==_iff (key x) (key a)).1 (ap key (sym e)) in
    rw here (ap some (sym e))
find-key key (x ∷ xs) a d (Memᴰ.tail m) =
    let off : key a ≢ key x = All-mem (λ y. key y ≢ key x) a xs d.0 m in
    elim (Bool-cases (key x == key a)) [
      | inl e ↦ absurd (off (sym ((==_iff (key x) (key a)).0 e)))
      | inr e ↦ rw e (find-key key xs a d.1 m)
    ]

module _ {ℓ} {A : Type ℓ} (q : A → Bool) (f : A → A) (new : A) where
  -- An upsert by a unique field leaves the row that was there, updated, or the new row.
  pub find-upsert_self :
      q new ≡ true
      → ((x : A) → q (f x) ≡ q x)
      → (xs : List A) → find q (upsert q f new xs) ≡ some (upserted f new (find q xs))
  find-upsert_self hn hf [] = rw hn refl
  find-upsert_self hn hf (x ∷ xs) = elim (Bool-cases (q x)) [
    | inl e ↦ rw e (rw (hf x) (rw e refl))
    | inr e ↦ rw e (rw e (find-upsert_self hn hf xs))
  ]

  pub find-upsert_other :
      (p : A → Bool)
      → p new ≡ false
      → ((x : A) → q x ≡ true → p x ≡ false)
      → ((x : A) → p (f x) ≡ p x)
      → (xs : List A) → find p (upsert q f new xs) ≡ find p xs
  find-upsert_other p hn off hf [] = rw hn refl
  find-upsert_other p hn off hf (x ∷ xs) = elim (Bool-cases (q x)) [
    | inl e ↦ rw e (rw (hf x) (rw (off x e) refl))
    | inr e ↦ elim (Bool-cases (p x)) [
      | inl g ↦ rw e (rw g refl)
      | inr g ↦ rw e (rw g (find-upsert_other p hn off hf xs))
    ]
  ]

module _ {ℓ κ} {A : Type ℓ} (P : A → Type κ) (p : A → Bool) (f : A → A) where
  pub All-update_where :
      (xs : List A)
      → All P xs
      → ((x : A) → P x → p x ≡ true → P (f x))
      → All P (update_where p f xs)
  All-update_where [] hs step = tt
  All-update_where (x ∷ xs) hs step = elim (Bool-cases (p x)) [
    | inl e ↦ rw e (step x hs.0 e, All-update_where xs hs.1 step)
    | inr e ↦ rw e (hs.0, All-update_where xs hs.1 step)
  ]

  pub All-upsert :
      (new : A)
      → P new
      → ((x : A) → P x → P (f x))
      → (xs : List A) → All P xs
      → All P (upsert p f new xs)
  All-upsert new hn step [] hs = (hn, tt)
  All-upsert new hn step (x ∷ xs) hs = elim (Bool-cases (p x)) [
    | inl e ↦ rw e (step x hs.0, hs.1)
    | inr e ↦ rw e (hs.0, All-upsert new hn step xs hs.1)
  ]

module _ {ℓ} {A : Type ℓ} {K : Type 0} (key : A → K) (p : A → Bool) (f : A → A) where
  keys_apart :
      (k : K) (xs : List A)
      → All (λ x. key (when p f x) ≡ key x) xs
      → All (λ y. key y ≢ k) xs
      → All (λ y. key y ≢ k) (update_where p f xs)
  keys_apart k [] same h = tt
  keys_apart k (x ∷ xs) same h = (subst (λ n. n ≢ k) (sym same.0) h.0, keys_apart k xs same.1 h.1)

  -- An update that keeps the keys keeps them apart.
  pub Distinct-update_where :
      (xs : List A)
      → All (λ x. key (when p f x) ≡ key x) xs
      → Distinct key xs
      → Distinct key (update_where p f xs)
  Distinct-update_where [] same d = tt
  Distinct-update_where (x ∷ xs) same d = (
    subst (λ k. All (λ y. key y ≢ k) (update_where p f xs)) (sym same.0)
        (keys_apart (key x) xs same.1 d.0),
    Distinct-update_where xs same.1 d.1,
  )
