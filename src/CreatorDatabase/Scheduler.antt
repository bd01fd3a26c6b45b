-- ===== src/CreatorDatabase/Scheduler.antt =====
-- Which partition the crawler claims next (apps/api/src/creator-database/creator-scheduler.ts). A
-- score is a whole number of millionths, to which the source rounds it.
pub mod Slots
pub mod Overlap
pub mod Fallback
mod Tests
use tiktok_outreach.Prelude.{
  ℕ, suc, ◌+◌, ◌-◌, ◌*◌, ◌/◌, ◌%◌, String, Bool, true, false, not, ◌&&◌, ◌||◌, List, [], ◌∷◌,
  Option, none, some, str_eq, ◌==◌, leb, ltb, if◌then◌else◌, some_and, select, any, head?, Locale,
}
use tiktok_outreach.Prelude.Int.{ℤ, leb_ℤ}
use tiktok_outreach.Prelude.Sorting.{sort}

pub data SchedulerClass : Type 0 where
  high medium exploration low experiment_only : SchedulerClass

pub data SchedulerSlot : Type 0 where
  primary_productive primary_exploration g3_exploration g4_probe : SchedulerSlot

pub data CoverageMode : Type 0 where
  coverage balanced : CoverageMode

-- `Math.floor(primaryCycle * productiveShare)`, with the shares 0.4 and 0.6.
abbrev pub productive_until : CoverageMode → ℕ → ℕ
productive_until coverage cycle = cycle * 4 / 10
productive_until balanced cycle = cycle * 6 / 10

abbrev pub exploration_until : ℕ → ℕ
exploration_until cycle = cycle * 9 / 10

-- The slot of a position in the cycle.
unfoldable pub slot_at : CoverageMode → ℕ → ℕ → SchedulerSlot
slot_at mode cycle position =
    if leb position (productive_until mode cycle)
    then primary_productive
    else if leb position (exploration_until cycle)
    then primary_exploration
    else g3_exploration

-- schedulerSlot; `none` where it throws.
unfoldable pub scheduler_slot : ℕ → CoverageMode → ℕ → ℕ → Option SchedulerSlot
unfolding slot_at
scheduler_slot sequence mode cadence cycle =
    if ltb sequence 1 || ltb cadence 100 || ltb cycle 10
    then none
    else if sequence % cadence == 0
    then some g4_probe
    else some (slot_at mode cycle ((sequence - 1) % cycle + 1))

pub record Candidate : Type 0 where
  pub id : String
  pub scheduler_class : SchedulerClass
  pub score : ℤ
  pub queue_position : ℕ
  pub gmv_bucket : Option String

abbrev class_code : SchedulerClass → ℕ
class_code high = 0
class_code medium = 1
class_code exploration = 2
class_code low = 3
class_code experiment_only = 4

abbrev pub is_class : SchedulerClass → SchedulerClass → Bool
is_class a b = class_code a == class_code b

-- `classes.indexOf(…)`, on a class that is there.
abbrev index_of : SchedulerClass → List SchedulerClass → ℕ
index_of k [] = 0
index_of k (c ∷ cs) = let rest = suc (index_of k cs) in if is_class c k then 0 else rest

abbrev pub has_class : List SchedulerClass → Candidate → Bool
has_class classes c = any (λ k. is_class k c.scheduler_class) classes

module _ (l : Locale) where
  -- The comparison of `ordered` is at most 0.
  abbrev pub claimed_before : List SchedulerClass → Candidate → Candidate → Bool
  claimed_before classes a b =
      let m = index_of a.scheduler_class classes in
      let n = index_of b.scheduler_class classes in
      if not (m == n)
      then ltb m n
      else if not (leb_ℤ a.score b.score && leb_ℤ b.score a.score)
      then leb_ℤ b.score a.score
      else if not (a.queue_position == b.queue_position)
      then ltb a.queue_position b.queue_position
      else l.collate_le a.id b.id

  unfoldable pub ordered : List Candidate → List SchedulerClass → List Candidate
  ordered cs classes = sort (claimed_before classes) (select (has_class classes) cs)

abbrev pub in_bucket : String → Candidate → Bool
in_bucket code c = some_and c.gmv_bucket (λ b. str_eq b code)

abbrev pub is_primary : Candidate → Bool
is_primary c = in_bucket "G1" c || in_bucket "G2" c

abbrev pub unknown_classes : SchedulerSlot → List SchedulerClass
unknown_classes primary_exploration = exploration ∷ medium ∷ []
unknown_classes _ = medium ∷ exploration ∷ []

-- A pool: the candidates of a bucket and the classes that it takes, in order.
pub record Pool : Type 0 where
  pub admits : Candidate → Bool
  pub classes : List SchedulerClass

abbrev productive_primary : Pool
productive_primary = record { admits = is_primary; classes = high ∷ [] }

abbrev unknown_primary : SchedulerSlot → Pool
unknown_primary slot = record { admits = is_primary; classes = unknown_classes slot }

abbrev productive_g3 : Pool
productive_g3 = record { admits = in_bucket "G3"; classes = high ∷ medium ∷ [] }

abbrev general_g3 : Pool
general_g3 = record { admits = in_bucket "G3"; classes = exploration ∷ low ∷ [] }

abbrev low_primary : Pool
low_primary = record { admits = is_primary; classes = low ∷ [] }

abbrev probe_g4 : Pool
probe_g4 = record { admits = in_bucket "G4"; classes = experiment_only ∷ [] }

unfoldable pub pools : SchedulerSlot → List Pool
pools g4_probe =
    probe_g4
    ∷ productive_primary
    ∷ unknown_primary g4_probe
    ∷ productive_g3
    ∷ general_g3
    ∷ low_primary
    ∷ []
pools g3_exploration =
    productive_g3
    ∷ general_g3
    ∷ productive_primary
    ∷ unknown_primary g3_exploration
    ∷ low_primary
    ∷ []
pools primary_exploration =
    unknown_primary primary_exploration
    ∷ productive_primary
    ∷ productive_g3
    ∷ general_g3
    ∷ low_primary
    ∷ []
pools primary_productive =
    productive_primary
    ∷ unknown_primary primary_productive
    ∷ productive_g3
    ∷ general_g3
    ∷ low_primary
    ∷ []

module _ (l : Locale) where
  unfoldable pub pooled : List Candidate → Pool → List Candidate
  unfolding ordered
  pooled cs p = ordered l (select p.admits cs) p.classes

  -- The first of the first pool that is not empty.
  unfoldable pub first_of : List Candidate → List Pool → Option Candidate
  unfolding pooled
  first_of cs [] = none
  first_of cs (p ∷ ps) = elim (head? (pooled cs p)) [ some c ↦ some c | none ↦ first_of cs ps ]

  unfoldable pub select_scheduler_candidate : List Candidate → SchedulerSlot → Option Candidate
  unfolding pools first_of
  select_scheduler_candidate cs slot = first_of cs (pools slot)
