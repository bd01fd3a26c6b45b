-- ===== src/Domain/Preview/Totals.antt =====
-- The summary of buildPreview adds up, and counts the creators of the result.
use tiktok_outreach.Prelude.{
  ℕ, suc, ◌+◌, ◌≡◌, refl, String, List, [], ◌∷◌, Option, some, none, arith, length, count, min,
  Locale,
}
use tiktok_outreach.Domain.Creators.{
  CreatorCandidate, SkipReason, invalid_messaging_id, filter_mismatch, duplicate, do_not_contact,
  delivery_unknown, cooldown, contacted_by_app_within_cooldown, active_reservation,
  EvaluatedCreator,
}
use tiktok_outreach.Domain.Preview.{
  PreviewInput, PreviewResult, mark_selected, chosen, evaluated, evaluate, see, skip_reason,
  skipped_for, count_reason, direction, preview, build_preview, build_preview-some,
}
use tiktok_outreach.Domain.Preview.Marking.{is_selected, count-mark_selected_same}
use tiktok_outreach.Domain.Preview.Choice.{is_eligible, count-mark_chosen, length-ranked_eligible}

abbrev skipped_total : List EvaluatedCreator → ℕ
skipped_total cs =
    count_reason filter_mismatch cs
    + count_reason invalid_messaging_id cs
    + count_reason duplicate cs
    + count_reason do_not_contact cs
    + count_reason delivery_unknown cs
    + (count_reason cooldown cs + count_reason contacted_by_app_within_cooldown cs)
    + count_reason active_reservation cs

module _ (l : Locale) (input : PreviewInput) (days : ℕ) where
  length-evaluate :
      (seen : List String) (cs : List CreatorCandidate)
      → length (evaluate l input days seen cs) ≡ length cs
  unfolding evaluate
  length-evaluate seen [] = refl
  length-evaluate seen (c ∷ cs) =
      omega (arith, length-evaluate (see l input days c.creator_open_id seen) cs)

  -- One creator more adds one to exactly one of the counts.
  evaluated_once :
      (c : CreatorCandidate) (reason : Option SkipReason) (es : List EvaluatedCreator)
      → let e = evaluated l input days c reason in
        skipped_total (e ∷ es) + count is_eligible (e ∷ es)
        ≡ skipped_total es + count is_eligible es + 1
  evaluated_once c none es = omega arith
  evaluated_once c (some invalid_messaging_id) es = omega arith
  evaluated_once c (some filter_mismatch) es = omega arith
  evaluated_once c (some duplicate) es = omega arith
  evaluated_once c (some do_not_contact) es = omega arith
  evaluated_once c (some delivery_unknown) es = omega arith
  evaluated_once c (some cooldown) es = omega arith
  evaluated_once c (some contacted_by_app_within_cooldown) es = omega arith
  evaluated_once c (some active_reservation) es = omega arith

  evaluate_accounts :
      (seen : List String) (cs : List CreatorCandidate)
      → let es = evaluate l input days seen cs in
        skipped_total es + count is_eligible es ≡ length cs
  unfolding evaluate
  evaluate_accounts seen [] = refl
  evaluate_accounts seen (c ∷ cs) = omega (
    arith,
    evaluated_once c (skip_reason l input days seen c)
        (evaluate l input days (see l input days c.creator_open_id seen) cs),
    evaluate_accounts (see l input days c.creator_open_id seen) cs,
  )

skipped_total-mark_selected :
    (ks : List ℕ) (n : ℕ) (cs : List EvaluatedCreator)
    → skipped_total (mark_selected ks n cs) ≡ skipped_total cs
skipped_total-mark_selected ks n cs = omega (
  arith,
  same filter_mismatch,
  same invalid_messaging_id,
  same duplicate,
  same do_not_contact,
  same delivery_unknown,
  same cooldown,
  same contacted_by_app_within_cooldown,
  same active_reservation,
)
  where
    same : (r : SkipReason) → count_reason r (mark_selected ks n cs) ≡ count_reason r cs
    same r = count-mark_selected_same (skipped_for r) (λ c b. refl) ks n cs

length-mark_selected :
    (ks : List ℕ) (n : ℕ) (cs : List EvaluatedCreator) → length (mark_selected ks n cs) ≡ length cs
unfolding mark_selected
length-mark_selected ks n [] = refl
length-mark_selected ks n (c ∷ cs) = omega (arith, length-mark_selected ks (suc n) cs)

module _ (l : Locale) (input : PreviewInput) (days : ℕ) where
  evaluated_creators : List EvaluatedCreator
  evaluated_creators = evaluate l input days [] input.creators

  chosen_positions : List ℕ
  chosen_positions = chosen l (direction input) input.requested evaluated_creators

  count-eligible_result :
      count is_eligible (preview l input days).creators ≡ count is_eligible evaluated_creators
  unfolding preview evaluated_creators chosen_positions
  count-eligible_result =
      count-mark_selected_same is_eligible (λ c b. refl) chosen_positions 0 evaluated_creators

  preview_accounts :
      let s = (preview l input days).summary in
      (s.fetched_occurrences ≡ length input.creators)
      × (s.excluded_by_filter + s.skipped_duplicates + s.skipped_do_not_contact
            + s.skipped_unknown_delivery + s.skipped_cooldown + s.skipped_active_reservation
            + s.eligible
          ≡ s.fetched_occurrences)
  unfolding preview evaluated_creators chosen_positions
  preview_accounts = omega (
    arith,
    length-mark_selected chosen_positions 0 evaluated_creators,
    length-evaluate l input days [] input.creators,
    skipped_total-mark_selected chosen_positions 0 evaluated_creators,
    evaluate_accounts l input days [] input.creators,
    length-ranked_eligible l (direction input) evaluated_creators,
  )

  preview_selects :
      let r = preview l input days in
      (count is_eligible r.creators ≡ r.summary.eligible)
      × (count is_selected r.creators ≡ r.summary.selected)
      × (r.summary.selected ≡ min input.requested r.summary.eligible)
      × (r.summary.selected + r.summary.shortfall ≡ input.requested)
  unfolding preview evaluated_creators chosen_positions
  preview_selects = omega (
    arith,
    count-eligible_result,
    count-mark_chosen l (direction input) evaluated_creators input.requested,
    length-ranked_eligible l (direction input) evaluated_creators,
  )

-- Where buildPreview succeeds, the summary's six counters of excluded creators and its `eligible` add
-- up to `fetchedOccurrences`, which is the number of creators that were given.
pub summary_accounts :
    (l : Locale) (input : PreviewInput) (r : PreviewResult)
    → build_preview l input ≡ some r
    → (r.summary.fetched_occurrences ≡ length input.creators)
      × (r.summary.excluded_by_filter + r.summary.skipped_duplicates
            + r.summary.skipped_do_not_contact + r.summary.skipped_unknown_delivery
            + r.summary.skipped_cooldown + r.summary.skipped_active_reservation + r.summary.eligible
          ≡ r.summary.fetched_occurrences)
summary_accounts l input r h =
    let (days, _, e) = build_preview-some l input r h in rw e (preview_accounts l input days)

-- Where buildPreview succeeds, it sets `selected` on exactly min(requested, eligible) creators, the
-- summary's `selected` and `eligible` are the numbers of creators with that flag and with that
-- eligibility, and `selected` and `shortfall` add up to the number requested.
pub summary_selects :
    (l : Locale) (input : PreviewInput) (r : PreviewResult)
    → build_preview l input ≡ some r
    → (count is_eligible r.creators ≡ r.summary.eligible)
      × (count is_selected r.creators ≡ r.summary.selected)
      × (r.summary.selected ≡ min input.requested r.summary.eligible)
      × (r.summary.selected + r.summary.shortfall ≡ input.requested)
summary_selects l input r h =
    let (days, _, e) = build_preview-some l input r h in rw e (preview_selects l input days)
