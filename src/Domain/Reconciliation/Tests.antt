-- ===== src/Domain/Reconciliation/Tests.antt =====
-- One delivery, dispatched at 100 seconds, and three messages of its conversation.
use tiktok_outreach.Prelude.{ℕ, String, ◌≡◌, refl, List, [], ◌∷◌, str_eq}
use tiktok_outreach.Domain.Reconciliation.{
  outbound, ReconciliationMessage, Evidence, matched, unresolved, multiple_matches,
  reconcile_unknown_delivery,
}
use tiktok_outreach.Domain.Reconciliation.Uniqueness.{IsOnlyCandidate, reconcile-matched}

abbrev message : String → ℕ → ReconciliationMessage
message id at = record {
  id = id;
  conversation_id = "conv";
  direction = outbound;
  content_hash = "hash";
  created_at = at;
}

abbrev evidence : List ReconciliationMessage → Evidence
evidence ms = record {
  conversation_id = "conv";
  content_hash = "hash";
  dispatched_at = 100000;
  messages = ms;
  already_linked = λ id. str_eq id "old";
}

abbrev one_left : Evidence
one_left = evidence (message "old" 100500 ∷ message "new" 101000 ∷ message "late" 9000000 ∷ [])

one_left_matched : reconcile_unknown_delivery one_left ≡ matched "new"
unfolding reconcile_unknown_delivery
one_left_matched = refl

two_left :
    reconcile_unknown_delivery (evidence (message "a" 100500 ∷ message "b" 100600 ∷ []))
    ≡ unresolved multiple_matches
unfolding reconcile_unknown_delivery
two_left = refl

reconcile-matched_example :
    (i : ℕ) × (m : ReconciliationMessage) × IsOnlyCandidate one_left i m × (m.id ≡ "new")
reconcile-matched_example = (reconcile-matched one_left "new").0 one_left_matched
