-- ===== src/Prelude/Positions.antt =====
-- Lists with the position of each entry, for code that changes the entries of one list through
-- references that it keeps in another.
use Prim.Native.Nat.{ℕ, zero, suc, ◌+◌, ◌≤◌, ◌<◌}
use mathlib.Core.Path.{◌≡◌, refl, ap}
use mathlib.Core.Logic.{◌≢◌, inl, inr}
use mathlib.Core.Bool.{Bool, true, false}
use mathlib.Core.Option.{some}
use mathlib.Core.List.{List, [], ◌∷◌, map, Memᴰ}
use native.Mathlib.Omega.{arith}
use tiktok_outreach.Prelude.Tests.{◌==◌, Bool-cases, ==_iff}
use tiktok_outreach.Prelude.Lists.{length, any, All, get_elem?}
use tiktok_outreach.Prelude.Sorting.{Each}

abbrev pub has_position : List ℕ → ℕ → Bool
has_position ks i = any (λ k. k == i) ks

module _ {ℓ} {A : Type ℓ} where
  abbrev pub number : ℕ → List A → List (ℕ × A)
  number n [] = []
  number n (x ∷ xs) = (n, x) ∷ number (suc n) xs

  abbrev pub position : ℕ × A → ℕ
  position q = q.0

  abbrev pub Apart : ℕ × A → ℕ × A → Type 0
  Apart a b = a.0 ≢ b.0

  pub mem-number :
      (n i : ℕ) (xs : List A) (a : A) → get_elem? xs i ≡ some a → Memᴰ (n + i, a) (number n xs)
  mem-number n i [] a h = cc
  mem-number n zero (x ∷ xs) a h = Memᴰ.head (ground arith)
  mem-number n (suc i) (x ∷ xs) a h =
      let e : n + suc i ≡ suc n + i = omega arith in rw e (Memᴰ.tail (mem-number (suc n) i xs a h))

  pub number-mem :
      (n : ℕ) (xs : List A) (q : ℕ × A)
      → Memᴰ q (number n xs)
      → (i : ℕ) × (q.0 ≡ n + i) × (get_elem? xs i ≡ some q.1)
  number-mem n [] q m = elim m [ ]
  number-mem n (x ∷ xs) q (Memᴰ.head e) = (0, ground arith, ground arith)
  number-mem n (x ∷ xs) q (Memᴰ.tail m) =
      let (i, e, g) = number-mem (suc n) xs q m in (suc i, omega arith, g)

  abbrev pub Within : ℕ → ℕ → ℕ × A → Type 0
  Within n len q = (n ≤ q.0) × (q.0 < n + len)

  number-above : (n m : ℕ) (x : A) (xs : List A) → n < m → All (Apart (n, x)) (number m xs)
  number-above n m x [] h = tt
  number-above n m x (y ∷ ys) h = (omega arith, number-above n (suc m) x ys (omega arith))

  pub number-Each : (n : ℕ) (xs : List A) → Each Apart (number n xs)
  number-Each n [] = tt
  number-Each n (x ∷ xs) = (number-above n (suc n) x xs (omega arith), number-Each (suc n) xs)

  number-Within_from :
      (n m len : ℕ) (xs : List A)
      → n ≤ m
      → m + length xs ≤ n + len
      → All (Within n len) (number m xs)
  number-Within_from n m len [] h k = tt
  number-Within_from n m len (x ∷ xs) h k =
      ((h, omega arith), number-Within_from n (suc m) len xs (omega arith) (omega arith))

  pub number-Within : (n : ℕ) (xs : List A) → All (Within n (length xs)) (number n xs)
  number-Within n xs = number-Within_from n n (length xs) xs (omega arith) (omega arith)

  pub has_position_of_mem :
      (q : ℕ × A) (qs : List (ℕ × A)) → Memᴰ q qs → has_position (map position qs) q.0 ≡ true
  has_position_of_mem q [] m = elim m [ ]
  has_position_of_mem q (x ∷ xs) (Memᴰ.head e) = ground (arith, ap position e)
  has_position_of_mem q (x ∷ xs) (Memᴰ.tail m) = ground (arith, has_position_of_mem q xs m)

  pub mem_of_has_position :
      (i : ℕ) (qs : List (ℕ × A))
      → has_position (map position qs) i ≡ true
      → (q : ℕ × A) × Memᴰ q qs × (q.0 ≡ i)
  mem_of_has_position i [] h = cc
  mem_of_has_position i (x ∷ xs) h = elim (Bool-cases (x.0 == i)) [
    | inl e ↦ (x, Memᴰ.head refl, (==_iff x.0 i).0 e)
    | inr e ↦ let (q, m, p) = mem_of_has_position i xs (ground arith) in (q, Memᴰ.tail m, p)
  ]

  pub has_position_of_Apart :
      (q : ℕ × A) (qs : List (ℕ × A))
      → All (Apart q) qs
      → has_position (map position qs) q.0 ≡ false
  has_position_of_Apart q [] h = refl
  has_position_of_Apart q (x ∷ xs) h = ground (arith, has_position_of_Apart q xs h.1, h.0)
