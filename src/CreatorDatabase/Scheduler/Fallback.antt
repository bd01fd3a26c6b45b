-- ===== src/CreatorDatabase/Scheduler/Fallback.antt =====
-- What a claim of the scheduler selects, and when it selects nothing.
use tiktok_outreach.Prelude.{
  ◌≡◌, ◌⊎◌, inl, inr, refl, subst, true, ◌||◌, List, [], ◌∷◌, none, some, some_inj, arith, select,
  head?, Locale, Bool-cases, Option-cases, All, All-select_passed, All-of_mem, All-imp, mem-select,
}
use mathlib.Core.List.{Memᴰ}
use tiktok_outreach.Prelude.Sorting.{All-sort, mem-sort}
use tiktok_outreach.CreatorDatabase.Scheduler.{
  SchedulerClass, high, medium, exploration, low, experiment_only, SchedulerSlot,
  primary_productive, primary_exploration, g3_exploration, g4_probe, Candidate, has_class,
  claimed_before, ordered, in_bucket, is_primary, Pool, pools, pooled, first_of,
  select_scheduler_candidate,
}

module _ (l : Locale) (cs : List Candidate) where
  -- A candidate of the pool.
  abbrev pub Pooled : Pool → Candidate → Type 0
  Pooled p c = Memᴰ c cs × (p.admits c ≡ true) × (has_class p.classes c ≡ true)

  pooled-All : (p : Pool) → All (Pooled p) (pooled l cs p)
  unfolding pooled ordered
  pooled-All p =
      All-sort (claimed_before l p.classes) (Pooled p)
        (select (has_class p.classes) (select p.admits cs))
        (All-imp (λ c. (Memᴰ c cs × (p.admits c ≡ true)) × (has_class p.classes c ≡ true))
          (Pooled p) (λ c h. (h.0.0, h.0.1, h.1))
          (select (has_class p.classes) (select p.admits cs))
          (All-select_passed (λ c. Memᴰ c cs × (p.admits c ≡ true)) (has_class p.classes)
            (select p.admits cs)
            (All-select_passed (λ c. Memᴰ c cs) p.admits cs
              (All-of_mem (λ c. Memᴰ c cs) cs (λ c m. m)))))

  pooled-mem : (p : Pool) (c : Candidate) → Pooled p c → Memᴰ c (pooled l cs p)
  unfolding pooled ordered
  pooled-mem p c h =
      mem-sort (claimed_before l p.classes) c (select (has_class p.classes) (select p.admits cs)) (
        mem-select (has_class p.classes) c (select p.admits cs) h.2
          (mem-select p.admits c cs h.1 h.0))

  head-All {ℓ κ} :
      {A : Type ℓ} (P : A → Type κ) (xs : List A) (a : A) → All P xs → head? xs ≡ some a → P a
  head-All P [] a h e = cc
  head-All P (x ∷ xs) a h e = subst P (some_inj e) h.0

  -- Some pool of the list has the candidate.
  abbrev AnyPool : Candidate → List Pool → Type 0
  AnyPool c [] = ⊥
  AnyPool c (p ∷ ps) = Pooled p c ⊎ AnyPool c ps

  first-AnyPool : (ps : List Pool) (c : Candidate) → first_of l cs ps ≡ some c → AnyPool c ps
  unfolding first_of
  first-AnyPool [] c h = cc
  first-AnyPool (p ∷ ps) c h = elim (Option-cases (head? (pooled l cs p))) [
    | inl e ↦ inr (first-AnyPool ps c (ground arith))
    | inr (d, e) ↦ inl (head-All (Pooled p) (pooled l cs p) c (pooled-All p) (ground arith))
  ]

  mem-head {ℓ} : {A : Type ℓ} (xs : List A) (a : A) → Memᴰ a xs → head? xs ≡ none → ⊥
  mem-head [] a m e = elim m [ ]
  mem-head (x ∷ xs) a m e = cc

  none-AnyPool : (ps : List Pool) (c : Candidate) → first_of l cs ps ≡ none → AnyPool c ps → ⊥
  unfolding first_of
  none-AnyPool [] c h m = elim m [ ]
  none-AnyPool (p ∷ ps) c h (inl here) = elim (Option-cases (head? (pooled l cs p))) [
    | inl e ↦ mem-head (pooled l cs p) c (pooled-mem p c here) e
    | inr (d, e) ↦ ground arith
  ]
  none-AnyPool (p ∷ ps) c h (inr there) = elim (Option-cases (head? (pooled l cs p))) [
    | inl e ↦ none-AnyPool ps c (ground arith) there
    | inr (d, e) ↦ ground arith
  ]

  -- The buckets and classes from which a slot selects.
  abbrev pub IsEligible : SchedulerSlot → Candidate → Type 0
  IsEligible slot c =
      ((is_primary c || in_bucket "G3" c) ≡ true)
      ⊎ ((slot ≡ g4_probe)
          × (in_bucket "G4" c ≡ true)
          × (has_class (experiment_only ∷ []) c ≡ true))

  abbrev Gives : SchedulerSlot → Candidate → Pool → Type 0
  Gives slot c p = Pooled p c → Memᴰ c cs × IsEligible slot c

  of_pools :
      (slot : SchedulerSlot) (c : Candidate) (ps : List Pool)
      → All (Gives slot c) ps
      → AnyPool c ps
      → Memᴰ c cs × IsEligible slot c
  of_pools slot c [] h m = elim m [ ]
  of_pools slot c (p ∷ ps) h (inl here) = h.0 here
  of_pools slot c (p ∷ ps) h (inr there) = of_pools slot c ps h.1 there

  module _ (slot : SchedulerSlot) (c : Candidate) (classes : List SchedulerClass) where
    of_primary : Gives slot c (record { admits = is_primary; classes = classes })
    of_primary h = let primary = h.1 in (h.0, inl (ground arith))

    of_g3 : Gives slot c (record { admits = in_bucket "G3"; classes = classes })
    of_g3 h = let g3 = h.1 in (h.0, inl (ground arith))

  any-IsEligible :
      (slot : SchedulerSlot) (c : Candidate)
      → AnyPool c (pools slot)
      → Memᴰ c cs × IsEligible slot c
  unfolding pools
  any-IsEligible g4_probe c = of_pools g4_probe c (pools g4_probe) (
    λ h. (h.0, inr (refl, h.1, h.2)),
    (
      of_primary g4_probe c (high ∷ []),
      (
        of_primary g4_probe c (medium ∷ exploration ∷ []),
        (
          of_g3 g4_probe c (high ∷ medium ∷ []),
          (of_g3 g4_probe c (exploration ∷ low ∷ []), (of_primary g4_probe c (low ∷ []), tt)),
        ),
      ),
    ),
  )
  any-IsEligible g3_exploration c = of_pools g3_exploration c (pools g3_exploration) (
    of_g3 g3_exploration c (high ∷ medium ∷ []),
    (
      of_g3 g3_exploration c (exploration ∷ low ∷ []),
      (
        of_primary g3_exploration c (high ∷ []),
        (
          of_primary g3_exploration c (medium ∷ exploration ∷ []),
          (of_primary g3_exploration c (low ∷ []), tt),
        ),
      ),
    ),
  )
  any-IsEligible primary_exploration c =
      of_pools primary_exploration c (pools primary_exploration) (
        of_primary primary_exploration c (exploration ∷ medium ∷ []),
        (
          of_primary primary_exploration c (high ∷ []),
          (
            of_g3 primary_exploration c (high ∷ medium ∷ []),
            (
              of_g3 primary_exploration c (exploration ∷ low ∷ []),
              (of_primary primary_exploration c (low ∷ []), tt),
            ),
          ),
        ),
      )
  any-IsEligible primary_productive c = of_pools primary_productive c (pools primary_productive) (
    of_primary primary_productive c (high ∷ []),
    (
      of_primary primary_productive c (medium ∷ exploration ∷ []),
      (
        of_g3 primary_productive c (high ∷ medium ∷ []),
        (
          of_g3 primary_productive c (exploration ∷ low ∷ []),
          (of_primary primary_productive c (low ∷ []), tt),
        ),
      ),
    ),
  )

  abbrev AnyOf : SchedulerSlot → Candidate → Type 0
  AnyOf slot c = AnyPool c (pools slot)

  any_primary :
      (slot : SchedulerSlot) (c : Candidate)
      → Memᴰ c cs
      → is_primary c ≡ true
      → (c.scheduler_class ≡ experiment_only) ⊎ AnyOf slot c
  unfolding pools
  any_primary slot c m h = ground arith

  any_g3 :
      (slot : SchedulerSlot) (c : Candidate)
      → Memᴰ c cs
      → in_bucket "G3" c ≡ true
      → (c.scheduler_class ≡ experiment_only) ⊎ AnyOf slot c
  unfolding pools
  any_g3 slot c m h = ground arith

  -- selectSchedulerCandidate selects one of the candidates, in the buckets G1 to G3, or in the slot of
  -- the G4 probe one of G4 that is only for experiments. It selects nothing only where every
  -- candidate of G1 to G3 is only for experiments: a slot whose own pool is empty falls back to the
  -- others.
  pub select_scheduler_candidate_lem :
      (slot : SchedulerSlot)
      → ((c : Candidate)
          → select_scheduler_candidate l cs slot ≡ some c
          → Memᴰ c cs × IsEligible slot c)
        × (select_scheduler_candidate l cs slot ≡ none
            → (c : Candidate) → Memᴰ c cs
            → (is_primary c || in_bucket "G3" c) ≡ true
            → c.scheduler_class ≡ experiment_only)
  unfolding select_scheduler_candidate
  select_scheduler_candidate_lem slot = (
    λ c h. any-IsEligible slot c (first-AnyPool (pools slot) c h),
    λ h c m bucket. elim (Bool-cases (is_primary c)) [
      | inl e ↦ elim (any_primary slot c m e) [
        | inl only ↦ only
        | inr found ↦ elim (none-AnyPool (pools slot) c h found) [ ]
      ]
      | inr e ↦ elim (any_g3 slot c m (ground arith)) [
        | inl only ↦ only
        | inr found ↦ elim (none-AnyPool (pools slot) c h found) [ ]
      ]
    ],
  )
