-- ===== src/History/Invariant.antt =====
-- Every run of processNext keeps IsSound of every shop.
use tiktok_outreach.Prelude.{
  ℕ, ◌≡◌, refl, sym, subst, inl, inr, not, ◌&&◌, List, [], ◌∷◌, Option, none, some, some_inj, ◌==◌,
  ==_iff, head?, select, All, All-imp, All-mem, All-select, All-of_mem, Distinct, same_key,
  Bool-cases,
}
use mathlib.Core.List.{Memᴰ}
use tiktok_outreach.Prelude.Sorting.{sort, All-sort}
use tiktok_outreach.Prelude.Tables.{when, update_where, Distinct-update_where}
use tiktok_outreach.History.Rows.{History, Settings}
use tiktok_outreach.History.Runs.{
  Answers, is_candidate, job_before, next_candidate, is_complete_job, is_incremental, turn,
  process_found, process_next,
}
use tiktok_outreach.History.Sound.{IsSound, HasMinima}
use tiktok_outreach.History.Turns.{turn-IsSound}

-- What a search finds is one of the rows.
found_among :
    (now : ℕ) (hs : List History) (c : History) → next_candidate now hs ≡ some c → Memᴰ c hs
unfolding next_candidate
found_among now hs c e =
    let candidates = select (λ h. is_candidate now h.job) hs in
    head_of (sort job_before candidates)
      (All-sort job_before (λ h. Memᴰ h hs) candidates
        (All-select (λ h. Memᴰ h hs) (λ h. is_candidate now h.job) hs
          (All-of_mem (λ h. Memᴰ h hs) hs (λ h m. m))))
      e
  where
    head_of : (xs : List History) → All (λ h. Memᴰ h hs) xs → head? xs ≡ some c → Memᴰ c hs
    head_of [] all e = cc
    head_of (x ∷ xs) all e = subst (λ h. Memᴰ h hs) (some_inj e) all.0

-- Every shop is sound, under its job's ID.
abbrev pub AllSound : Settings → List History → Type 0
AllSound s hs = All (λ h. IsSound s h.job.id h) hs × Distinct (λ h. h.job.id) hs

module _ (s : Settings) (a : Answers) (owner : ℕ) where
  own_turn :
      (c h : History)
      → c ≡ h
      → HasMinima s
      → IsSound s h.job.id h
      → IsSound s h.job.id (turn s a owner c.job h)
  own_turn c h e configured g =
      subst (λ x. IsSound s h.job.id (turn s a owner x.job h)) (sym e)
        (turn-IsSound s a owner h.job.id h configured g)

  turned :
      (c : History) (hs : List History)
      → HasMinima s
      → Memᴰ c hs
      → AllSound s hs
      → AllSound s (update_where (λ h. h.job.id == c.job.id) (turn s a owner c.job) hs)
  turned c hs configured m all =
      let each =
        All-of_mem
          (λ h. IsSound s h.job.id (when (λ x. x.job.id == c.job.id) (turn s a owner c.job) h)) hs
          (λ h n. step h n (All-mem (λ x. IsSound s x.job.id x) h hs all.0 n)) in
      (
        sound hs each,
        Distinct-update_where (λ h. h.job.id) _ (turn s a owner c.job) hs
            (All-imp _ _ (λ h g. g.own) hs each) all.1,
      )
    where
      step :
          (h : History)
          → Memᴰ h hs
          → IsSound s h.job.id h
          → IsSound s h.job.id (when (λ x. x.job.id == c.job.id) (turn s a owner c.job) h)
      step h n g = elim (Bool-cases (h.job.id == c.job.id)) [
        | inl e ↦ rw e (
            own_turn c h
              (same_key (λ x. x.job.id) hs c h all.1 m n (sym ((==_iff h.job.id c.job.id).0 e)))
              configured g)
        | inr e ↦ rw e g
      ]

      sound :
          (xs : List History)
          → All
              (λ h. IsSound s h.job.id (when (λ x. x.job.id == c.job.id) (turn s a owner c.job) h))
              xs
          → All
              (λ h. IsSound s h.job.id h)
              (update_where (λ h. h.job.id == c.job.id) (turn s a owner c.job) xs)
      sound [] all = tt
      sound (x ∷ xs) all = (
        subst (λ n. IsSound s n (when (λ x. x.job.id == c.job.id) (turn s a owner c.job) x))
            (sym all.0.own) all.0,
        sound xs all.1,
      )

  process_found-AllSound :
      (o : Option History) (hs : List History)
      → HasMinima s
      → next_candidate a.claimed_at hs ≡ o
      → AllSound s hs
      → AllSound s (process_found s a owner o hs).1
  unfolding process_found
  process_found-AllSound none hs configured e all = all
  process_found-AllSound (some c) hs configured e all =
      elim (Bool-cases (is_complete_job c.job.state && not (is_incremental c.job.mode))) [
        | inl off ↦ rw off all
        | inr on ↦ rw on (turned c hs configured (found_among a.claimed_at hs c e) all)
      ]

  process_next-AllSound :
      (hs : List History) → HasMinima s → AllSound s hs → AllSound s (process_next s a owner hs).1
  unfolding process_next
  process_next-AllSound hs configured all =
      process_found-AllSound (next_candidate a.claimed_at hs) hs configured refl all

-- Runs, one after another, each by the worker that names its lease.
abbrev pub run_all : Settings → List (Answers × ℕ) → List History → List History
run_all s [] hs = hs
run_all s ((a, owner) ∷ rest) hs = run_all s rest (process_next s a owner hs).1

-- Over every sequence of runs, whatever the provider answers and whatever fails, every shop stays
-- sound: a work of an earlier page is flagged complete, no work is open while a page is being listed, a head pass has no cursor,
-- a head pass is due after a bounded number of backfill pages, an incremental pass reads a bounded
-- number of pages, only a running job is leased, and a complete job has its history. Jobs have
-- different IDs, and the configuration's minima hold.
pub run_all-AllSound :
    (s : Settings) (runs : List (Answers × ℕ)) (hs : List History)
    → HasMinima s
    → AllSound s hs
    → AllSound s (run_all s runs hs)
run_all-AllSound s [] hs configured all = all
run_all-AllSound s ((a, owner) ∷ runs) hs configured all =
    run_all-AllSound s runs (process_next s a owner hs).1 configured
      (process_next-AllSound s a owner hs configured all)
