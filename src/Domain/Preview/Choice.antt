-- ===== src/Domain/Preview/Choice.antt =====
-- Which creators buildPreview selects: as many as asked for, the best ranked, all of them eligible.
use mathlib.Core.List.{Memᴰ}
use tiktok_outreach.Prelude.{
  ℕ, ◌+◌, ◌≡◌, refl, sym, ap, subst, ◌∙◌, inl, inr, Bool, true, false, List, some, arith, length,
  take, drop, count, All, get_elem?, min, length-take, length-select, All-take, All-select,
  All-select_passed, All-of_mem, All-mem, mem-select, mem-take-or-drop, Locale, [], ◌∷◌, suc,
  length-select,
}
use tiktok_outreach.Prelude.Sorting.{
  Each, Each-take, Each-select, Each-sort, All-sort, length-sort, mem-sort, sort-IsSorted,
  IsSorted-take-drop,
}
use tiktok_outreach.Prelude.Positions.{
  number, has_position, Apart, Within, number-Each, number-Within, number-mem, mem-number,
  mem_of_has_position, has_position_of_mem,
}
use tiktok_outreach.Domain.Creators.{EvaluatedCreator}
use tiktok_outreach.Domain.Ranking.{
  RankingDirection, ranked_before, Collates, ranked_before-total, ranked_before_trans,
}
use tiktok_outreach.Domain.Preview.{
  mark_selected, eligible_entry, entry_before, ranked_eligible, chosen,
}
use tiktok_outreach.Domain.Preview.Marking.{is_selected, mark_selected-get, count-mark_selected}

abbrev pub is_eligible : EvaluatedCreator → Bool
is_eligible c = c.is_eligible

abbrev Stands : List EvaluatedCreator → ℕ × EvaluatedCreator → Type 0
Stands cs q = (get_elem? cs q.0 ≡ some q.1) × (q.1.is_eligible ≡ true)

module _ (l : Locale) (d : RankingDirection) (cs : List EvaluatedCreator) where
  ranked_eligible-Each : Each Apart (ranked_eligible l d cs)
  unfolding ranked_eligible
  ranked_eligible-Each =
      Each-sort Apart (λ a b h e. h (sym e)) (entry_before l d) _
        (Each-select Apart eligible_entry _ (number-Each 0 cs))

  ranked_eligible-Within : All (Within 0 (length cs)) (ranked_eligible l d cs)
  unfolding ranked_eligible
  ranked_eligible-Within =
      All-sort (entry_before l d) _ _ (All-select _ eligible_entry _ (number-Within 0 cs))

  ranked_eligible-Stands : All (Stands cs) (ranked_eligible l d cs)
  unfolding ranked_eligible
  ranked_eligible-Stands =
      All-sort (entry_before l d) (Stands cs) _
        (All-select_passed (λ q. get_elem? cs q.0 ≡ some q.1) eligible_entry (number 0 cs) found)
    where
      found : All (λ q. get_elem? cs q.0 ≡ some q.1) (number 0 cs)
      found =
          All-of_mem (λ q. get_elem? cs q.0 ≡ some q.1) (number 0 cs)
            λ q m. let (i, e, g) = number-mem 0 cs q m in let z : q.0 ≡ i = omega arith in rw z g

  mem-ranked_eligible :
      (i : ℕ) (c : EvaluatedCreator)
      → get_elem? cs i ≡ some c
      → c.is_eligible ≡ true
      → Memᴰ (i, c) (ranked_eligible l d cs)
  unfolding ranked_eligible
  mem-ranked_eligible i c h e =
      let z : 0 + i ≡ i = omega arith in
      mem-sort (entry_before l d) (i, c) _
        (mem-select eligible_entry (i, c) _ e (rw z at (mem-number 0 i cs c h)))

  pub length-ranked_eligible : length (ranked_eligible l d cs) ≡ count is_eligible cs
  unfolding ranked_eligible
  length-ranked_eligible =
      length-sort (entry_before l d) _
      ∙ length-select eligible_entry (number 0 cs)
      ∙ count-number 0 cs
    where
      count-number :
          (n : ℕ) (es : List EvaluatedCreator)
          → count eligible_entry (number n es) ≡ count is_eligible es
      count-number n [] = refl
      count-number n (e ∷ es) = ground (arith, count-number (suc n) es)

  module _ (r : ℕ) where
    pub count-mark_chosen :
        count is_selected (mark_selected (chosen l d r cs) 0 cs) ≡ min r (count is_eligible cs)
    unfolding chosen
    count-mark_chosen =
        count-mark_selected (take r (ranked_eligible l d cs)) 0 cs
          (Each-take Apart r _ ranked_eligible-Each) (All-take _ r _ ranked_eligible-Within)
        ∙ length-take r (ranked_eligible l d cs)
        ∙ ap (min r) length-ranked_eligible

    -- A marked creator comes from one of the chosen entries.
    chosen_entry :
        (i : ℕ) (c : EvaluatedCreator)
        → get_elem? cs i ≡ some c
        → has_position (chosen l d r cs) i ≡ true
        → Memᴰ (i, c) (take r (ranked_eligible l d cs)) × (c.is_eligible ≡ true)
    unfolding chosen
    chosen_entry i c h m =
        let (q, mem, e) = mem_of_has_position i (take r (ranked_eligible l d cs)) m in
        let (at, ok) =
          All-mem (Stands cs) q _ (All-take (Stands cs) r _ ranked_eligible-Stands) mem in
        let same : q ≡ (i, c) = ground (arith, rw e at at) in
        (subst (λ p. Memᴰ p (take r (ranked_eligible l d cs))) same mem, ground arith)

    -- A selected creator is eligible, and was so before the flags were set.
    pub selected_entry :
        (i : ℕ) (e : EvaluatedCreator)
        → get_elem? (mark_selected (chosen l d r cs) 0 cs) i ≡ some e
        → e.selected ≡ true
        → (c : EvaluatedCreator) × (get_elem? cs i ≡ some c)
          × (e ≡ record c { selected = true })
          × (c.is_eligible ≡ true)
          × Memᴰ (i, c) (take r (ranked_eligible l d cs))
    selected_entry i e h s =
        let (c, g, p) = mark_selected-get (chosen l d r cs) 0 cs i e h in
        let z : 0 + i ≡ i = omega arith in
        let m : has_position (chosen l d r cs) i ≡ true = ground (arith, rw z at p) in
        let (mem, ok) = chosen_entry i c g m in (c, g, ground (arith, rw z at p), ok, mem)

    pub best_chosen :
        Collates l
        → (i j : ℕ) (a b : EvaluatedCreator)
        → get_elem? (mark_selected (chosen l d r cs) 0 cs) i ≡ some a
        → a.selected ≡ true
        → get_elem? (mark_selected (chosen l d r cs) 0 cs) j ≡ some b
        → b.is_eligible ≡ true
        → b.selected ≡ false
        → ranked_before l d a b ≡ true
    unfolding ranked_eligible chosen ranked_before
    best_chosen laws i j a b ga sa gb eb sb =
        let (c, _, pa, _, first) = selected_entry i a ga sa in
        let (c', g', pb) = mark_selected-get (chosen l d r cs) 0 cs j b gb in
        let z : 0 + j ≡ j = omega arith in
        let late : Memᴰ (j, c') (drop r (ranked_eligible l d cs)) =
          elim (mem-take-or-drop r (j, c') _ (mem-ranked_eligible j c' g' (ground arith))) [
            | inl m ↦ absurd (ground (arith, rw z at pb, has_position_of_mem (j, c') _ m))
            | inr m ↦ m
          ] in
        ground (
          arith,
          IsSorted-take-drop (entry_before l d) r (i, c) (j, c') _
              (sort-IsSorted (entry_before l d) (λ x y. ranked_before-total l laws d x.1 y.1)
                (λ x y w. ranked_before_trans l laws d x.1 y.1 w.1) _)
              first late,
        )
