-- ===== src/Domain/Reconciliation.antt =====
-- reconcileUnknownDelivery of packages/domain/src/index.ts. Instants are milliseconds.
pub mod Uniqueness
mod Tests
use tiktok_outreach.Prelude.{
  ℕ, ◌+◌, String, Bool, true, false, not, ◌&&◌, List, [], ◌∷◌, str_eq, leb, select,
}

pub data MessageDirection : Type 0 where
  outbound inbound : MessageDirection

abbrev pub is_outbound : MessageDirection → Bool
is_outbound outbound = true
is_outbound inbound = false

pub record ReconciliationMessage : Type 0 where
  pub id : String
  pub conversation_id : String
  pub direction : MessageDirection
  pub content_hash : String
  pub created_at : ℕ

-- The set of message IDs is a function: what `has` answers.
pub record Evidence : Type 0 where
  pub conversation_id : String
  pub content_hash : String
  pub dispatched_at : ℕ
  pub messages : List ReconciliationMessage
  pub already_linked : String → Bool

pub data UnresolvedReason : Type 0 where
  no_exact_match multiple_matches : UnresolvedReason

pub data Reconciled : Type 0 where
  matched : String → Reconciled
  unresolved : UnresolvedReason → Reconciled

abbrev pub window_before : ℕ
window_before = 30000

abbrev pub window_after : ℕ
window_after = 7200000

-- `createdAt >= dispatchedAt - 30_000` is written as a sum: the difference may be negative.
unfoldable pub is_match : Evidence → ReconciliationMessage → Bool
is_match e m =
    str_eq m.conversation_id e.conversation_id
    && is_outbound m.direction
    && str_eq m.content_hash e.content_hash
    && leb e.dispatched_at (m.created_at + window_before)
    && leb m.created_at (e.dispatched_at + window_after)
    && not (e.already_linked m.id)

abbrev pub verdict : List ReconciliationMessage → Reconciled
verdict [] = unresolved no_exact_match
verdict (m ∷ []) = matched m.id
verdict (m ∷ n ∷ ms) = unresolved multiple_matches

unfoldable pub reconcile_unknown_delivery : Evidence → Reconciled
unfolding is_match
reconcile_unknown_delivery e = verdict (select (is_match e) e.messages)
