-- ===== src/CreatorDatabase/Scheduler/Slots.antt =====
-- The shares of the slots in a cycle.
use tiktok_outreach.Prelude.{
  ℕ, zero, suc, ◌+◌, ◌-◌, ◌*◌, ◌/◌, ◌%◌, min, ◌≤◌, ◌<◌, ◌≡◌, ◌⊎◌, inl, inr, refl, Bool, true, false,
  ◌||◌, none, some, arith, ◌==◌, leb, ltb, if◌then◌else◌, Bool-cases,
}
use native.Mathlib.Nat.{mod-lt, div-add-mod'}
use tiktok_outreach.CreatorDatabase.Scheduler.{
  SchedulerSlot, primary_productive, primary_exploration, g3_exploration, g4_probe, CoverageMode,
  coverage, balanced, productive_until, exploration_until, slot_at, scheduler_slot,
}

abbrev pub is_productive : SchedulerSlot → Bool
is_productive primary_productive = true
is_productive _ = false

abbrev pub is_exploration : SchedulerSlot → Bool
is_exploration primary_exploration = true
is_exploration _ = false

abbrev pub is_g3 : SchedulerSlot → Bool
is_g3 g3_exploration = true
is_g3 _ = false

-- How many of the first `n` positions of a cycle have a slot of a kind.
unfoldable pub slots_of : (SchedulerSlot → Bool) → CoverageMode → ℕ → ℕ → ℕ
slots_of kind mode cycle zero = 0
slots_of kind mode cycle (suc n) =
    let rest = slots_of kind mode cycle n in
    if kind (slot_at mode cycle (suc n)) then suc rest else rest

shares_in_order :
    (mode : CoverageMode) (cycle : ℕ) → productive_until mode cycle ≤ exploration_until cycle
shares_in_order coverage cycle = omega arith
shares_in_order balanced cycle = omega arith

productive_some : (mode : CoverageMode) (cycle : ℕ) → 10 ≤ cycle → 1 ≤ productive_until mode cycle
productive_some coverage cycle h = omega (arith, h)
productive_some balanced cycle h = omega (arith, h)

some_between :
    (mode : CoverageMode) (cycle : ℕ)
    → 10 ≤ cycle
    → productive_until mode cycle < exploration_until cycle
some_between coverage cycle h = omega (arith, h)
some_between balanced cycle h = omega (arith, h)

module _ (mode : CoverageMode) (cycle : ℕ) where
  productive_slots :
      (n : ℕ) → slots_of is_productive mode cycle n ≡ min n (productive_until mode cycle)
  unfolding slots_of slot_at
  productive_slots zero = omega arith
  productive_slots (suc n) =
      let rest = productive_slots n in
      elim (Bool-cases (leb (suc n) (productive_until mode cycle))) [
        | inl e ↦ ground arith
        | inr e ↦ ground arith
      ]

  exploration_slots :
      (n : ℕ)
      → slots_of is_exploration mode cycle n + min n (productive_until mode cycle)
        ≡ min n (exploration_until cycle)
  unfolding slots_of slot_at
  exploration_slots zero = omega arith
  exploration_slots (suc n) =
      let rest = exploration_slots n in
      let order = shares_in_order mode cycle in
      elim (Bool-cases (leb (suc n) (productive_until mode cycle))) [
        | inl e ↦ ground arith
        | inr e ↦ elim (Bool-cases (leb (suc n) (exploration_until cycle))) [
          | inl g ↦ ground arith
          | inr g ↦ ground arith
        ]
      ]

  g3_slots : (n : ℕ) → slots_of is_g3 mode cycle n + min n (exploration_until cycle) ≡ n
  unfolding slots_of slot_at
  g3_slots zero = omega arith
  g3_slots (suc n) =
      let rest = g3_slots n in
      let order = shares_in_order mode cycle in
      elim (Bool-cases (leb (suc n) (productive_until mode cycle))) [
        | inl e ↦ ground arith
        | inr e ↦ elim (Bool-cases (leb (suc n) (exploration_until cycle))) [
          | inl g ↦ ground arith
          | inr g ↦ ground arith
        ]
      ]

  -- In a cycle of ten claims at least, the productive slots are 4 or 6 tenths of it rounded down, by
  -- the coverage mode, these and the exploration slots together 9 tenths rounded down, and the
  -- rest is for G3. Each kind has one slot at least.
  pub slot_shares :
      10 ≤ cycle
      → (slots_of is_productive mode cycle cycle ≡ productive_until mode cycle)
        × (slots_of is_exploration mode cycle cycle + productive_until mode cycle
            ≡ exploration_until cycle)
        × (slots_of is_g3 mode cycle cycle + exploration_until cycle ≡ cycle)
        × (1 ≤ slots_of is_productive mode cycle cycle)
        × (1 ≤ slots_of is_exploration mode cycle cycle)
        × (1 ≤ slots_of is_g3 mode cycle cycle)
  slot_shares h =
      let productive = productive_slots cycle in
      let explored = exploration_slots cycle in
      let rest = g3_slots cycle in
      let order = shares_in_order mode cycle in
      let between = some_between mode cycle h in
      let one = productive_some mode cycle h in
      (omega arith, omega arith, omega arith, omega arith, omega arith, omega arith)

positive_sequence :
    (sequence : ℕ) (mode : CoverageMode) (cadence cycle : ℕ)
    → 1 ≤ sequence
    → 100 ≤ cadence
    → 10 ≤ cycle
    → scheduler_slot sequence mode cadence cycle
      ≡ some (
          if sequence % cadence == 0
          then g4_probe
          else slot_at mode cycle ((sequence - 1) % cycle + 1))
unfolding scheduler_slot
positive_sequence sequence mode cadence cycle h1 h2 h3 =
    let allowed : ltb sequence 1 || ltb cadence 100 || ltb cycle 10 ≡ false = ground arith in
    rw allowed
      (elim (Bool-cases (sequence % cadence == 0)) [ inl e ↦ rw e refl | inr e ↦ rw e refl ])

-- schedulerSlot answers for a positive claim sequence, a probe cadence of a hundred and a cycle of
-- ten at least, and throws otherwise. The answer is a G4 probe exactly at the multiples of the
-- cadence, and elsewhere the slot of a position of the cycle that depends on the sequence modulo the
-- cycle alone.
pub scheduler_slot_lem :
    (sequence : ℕ) (mode : CoverageMode) (cadence cycle : ℕ)
    → ((1 ≤ sequence) × (100 ≤ cadence) × (10 ≤ cycle)
        → (position : ℕ) × (1 ≤ position)
          × (position ≤ cycle)
          × ((turns : ℕ) × (sequence ≡ turns * cycle + position))
          × (scheduler_slot sequence mode cadence cycle
              ≡ some (if sequence % cadence == 0 then g4_probe else slot_at mode cycle position)))
      × ((sequence < 1) ⊎ (cadence < 100) ⊎ (cycle < 10)
          → scheduler_slot sequence mode cadence cycle ≡ none)
unfolding scheduler_slot
scheduler_slot_lem sequence mode cadence cycle = (
  λ h.
      let cycle_positive : zero < cycle = omega (arith, h.2) in
      let inside : (sequence - 1) % cycle < cycle = mod-lt (sequence - 1) cycle_positive in
      let parts = div-add-mod' (sequence - 1) cycle in
      (
        (sequence - 1) % cycle + 1,
        omega arith,
        omega (arith, inside),
        ((sequence - 1) / cycle, omega (arith, parts, h.0)),
        positive_sequence sequence mode cadence cycle h.0 h.1 h.2,
      ),
  λ h. ground arith,
)
