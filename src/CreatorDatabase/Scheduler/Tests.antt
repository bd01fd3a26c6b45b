-- ===== src/CreatorDatabase/Scheduler/Tests.antt =====
-- A few claims of the scheduler.
use tiktok_outreach.Prelude.{◌≡◌, refl, String, true, ◌||◌, List, [], ◌∷◌, none, some, Locale}
use mathlib.Core.List.{Memᴰ}
use tiktok_outreach.Prelude.Int.{pos}
use tiktok_outreach.CreatorDatabase.Scheduler.{
  medium, experiment_only, SchedulerClass, g3_exploration, Candidate, is_primary, in_bucket,
  select_scheduler_candidate,
}
use tiktok_outreach.CreatorDatabase.Scheduler.Overlap.{follower_overlap_weight}
use tiktok_outreach.CreatorDatabase.Scheduler.Fallback.{IsEligible, select_scheduler_candidate_lem}

overlap_of_300 : (follower_overlap_weight (some 600) (some 999) (some 700) (some 1199)).part ≡ 300
unfolding follower_overlap_weight
overlap_of_300 = refl

abbrev candidate : String → SchedulerClass → String → Candidate
candidate id class bucket = record {
  id = id;
  scheduler_class = class;
  score = pos 1000;
  queue_position = 1;
  gmv_bucket = some bucket;
}

abbrev candidates : List Candidate
candidates = candidate "a" experiment_only "G4" ∷ candidate "b" medium "G1" ∷ []

abbrev locale : Locale
locale = record { lower = λ s. s; upper = λ s. s; collate_le = λ a b. true }

select_scheduler_candidate_lem_example :
    ((c : Candidate)
      → select_scheduler_candidate locale candidates g3_exploration ≡ some c
      → Memᴰ c candidates × IsEligible locale candidates g3_exploration c)
    × (select_scheduler_candidate locale candidates g3_exploration ≡ none
        → (c : Candidate) → Memᴰ c candidates
        → (is_primary c || in_bucket "G3" c) ≡ true
        → c.scheduler_class ≡ experiment_only)
select_scheduler_candidate_lem_example =
    select_scheduler_candidate_lem locale candidates g3_exploration
