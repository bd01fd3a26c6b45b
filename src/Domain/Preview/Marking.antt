-- ===== src/Domain/Preview/Marking.antt =====
-- What `mark_selected` does to the flags, and how many it sets.
use tiktok_outreach.Prelude.{
  ℕ, zero, suc, ◌+◌, ◌≤◌, ◌<◌, ◌≡◌, refl, Bool, false, List, [], ◌∷◌, map, some, arith, length,
  count, All, get_elem?,
}
use native.Mathlib.Decide.{ℕ_discrete}
use tiktok_outreach.Prelude.Sorting.{Each}
use tiktok_outreach.Prelude.Positions.{has_position, position, Apart, Within, has_position_of_Apart}
use tiktok_outreach.Domain.Creators.{EvaluatedCreator}
use tiktok_outreach.Domain.Preview.{mark_selected}

abbrev pub is_selected : EvaluatedCreator → Bool
is_selected c = c.selected

pub mark_selected-get :
    (ks : List ℕ) (n : ℕ) (cs : List EvaluatedCreator) (i : ℕ) (e : EvaluatedCreator)
    → get_elem? (mark_selected ks n cs) i ≡ some e
    → (c : EvaluatedCreator) × (get_elem? cs i ≡ some c)
      × (e ≡ record c { selected = has_position ks (n + i) })
unfolding mark_selected
mark_selected-get ks n [] i e h = cc
mark_selected-get ks n (c ∷ cs) zero e h =
    let p : n + 0 ≡ n = omega arith in (c, refl, rw p (ground arith))
mark_selected-get ks n (c ∷ cs) (suc i) e h =
    let p : n + suc i ≡ suc n + i = omega arith in rw p (mark_selected-get ks (suc n) cs i e h)

pub count-mark_selected_nil :
    (n : ℕ) (cs : List EvaluatedCreator) → count is_selected (mark_selected [] n cs) ≡ 0
unfolding mark_selected
count-mark_selected_nil n [] = refl
count-mark_selected_nil n (c ∷ cs) = count-mark_selected_nil (suc n) cs

-- A position before the list adds no mark.
mark_selected_past :
    (k : ℕ) (ks : List ℕ) (n : ℕ) (cs : List EvaluatedCreator)
    → k < n
    → mark_selected (k ∷ ks) n cs ≡ mark_selected ks n cs
unfolding mark_selected
mark_selected_past k ks n [] h = refl
mark_selected_past k ks n (c ∷ cs) h =
    ground (arith, mark_selected_past k ks (suc n) cs (omega arith))

-- A new position within the list adds one.
count-mark_selected_cons :
    (k : ℕ) (ks : List ℕ) (n : ℕ) (cs : List EvaluatedCreator)
    → has_position ks k ≡ false
    → n ≤ k
    → k < n + length cs
    → count is_selected (mark_selected (k ∷ ks) n cs)
      ≡ suc (count is_selected (mark_selected ks n cs))
unfolding mark_selected
count-mark_selected_cons k ks n [] new low high = absurd (omega arith)
count-mark_selected_cons k ks n (c ∷ cs) new low high = elim (ℕ_discrete k n) [
  | yes e ↦ ground (arith, mark_selected_past k ks (suc n) cs (omega arith))
  | no e ↦ ground (arith, count-mark_selected_cons k ks (suc n) cs new (omega arith) (omega arith))
]

-- Distinct positions within the list mark one creator each.
pub count-mark_selected :
    (qs : List (ℕ × EvaluatedCreator)) (n : ℕ) (cs : List EvaluatedCreator)
    → Each Apart qs
    → All (Within n (length cs)) qs
    → count is_selected (mark_selected (map position qs) n cs) ≡ length qs
count-mark_selected [] n cs apart within = count-mark_selected_nil n cs
count-mark_selected (q ∷ qs) n cs apart within = omega (
  arith,
  count-mark_selected_cons q.0 (map position qs) n cs (has_position_of_Apart q qs apart.0)
      within.0.0 within.0.1,
  count-mark_selected qs n cs apart.1 within.1,
)

-- A test that does not read the flag counts the same creators.
pub count-mark_selected_same :
    (p : EvaluatedCreator → Bool)
    → ((c : EvaluatedCreator) (b : Bool) → p (record c { selected = b }) ≡ p c)
    → (ks : List ℕ) (n : ℕ) (cs : List EvaluatedCreator)
    → count p (mark_selected ks n cs) ≡ count p cs
unfolding mark_selected
count-mark_selected_same p same ks n [] = refl
count-mark_selected_same p same ks n (c ∷ cs) =
    ground (arith, same c (has_position ks n), count-mark_selected_same p same ks (suc n) cs)
