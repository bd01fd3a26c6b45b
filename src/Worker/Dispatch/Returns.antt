-- ===== src/Worker/Dispatch/Returns.antt =====
-- How often the lists of transactions return a delivery to be dispatched again.
use tiktok_outreach.Prelude.{ℕ, ◌≤◌, ◌≡◌, refl, String, Bool, true, List, Option, arith, count}
use tiktok_outreach.Domain.Reconciliation.{ReconciliationMessage, Reconciled, matched, unresolved}
use tiktok_outreach.Worker.Backoff.{RetryAfter}
use tiktok_outreach.Worker.Governor.{Permit}
use tiktok_outreach.Worker.Dispatch.Rows.{Delivery, Store, Snapshot}
use tiktok_outreach.Worker.Dispatch.Send.{
  ProviderError, Sent, may_be_accepted, Effect, JobEnd, conversation_refused, conversation_broken,
  send_refused, send_failed, after_send,
}
use tiktok_outreach.Worker.Dispatch.Jobs.{
  delivery_action, ends, gate, settle_reconciliation, process_reconciliation,
}
use tiktok_outreach.Worker.Dispatch.Claimable.{is_retry}

abbrev pub returns : List Effect → ℕ
returns es = count is_retry es

module _ (permit : Permit) (final : Bool) (draw : ℕ) where
  pub refused-le : (e : ProviderError) → returns (conversation_refused permit final draw e).0 ≤ 1
  unfolding conversation_refused
  refused-le e = ground arith

  pub broken-le : returns (conversation_broken permit final draw).0 ≤ 1
  unfolding conversation_broken
  broken-le = ground arith

  send_refused-le : (e : ProviderError) → returns (send_refused permit final draw e).0 ≤ 1
  unfolding send_refused
  send_refused-le e = ground arith

  send_failed-le :
      (request code : String) (status : Option ℕ) (retry_after : RetryAfter)
      → returns (send_failed permit final draw request code status retry_after).0 ≤ 1
  unfolding send_failed
  send_failed-le request code status retry_after = ground arith

  pub after_send-le :
      (conversation : String) (a : Sent)
      → returns (after_send permit final draw conversation a).0 ≤ 1
  unfolding after_send
  after_send-le conversation (Sent.sent m q status) = omega arith
  after_send-le conversation (Sent.delivery_unknown q status) = omega arith
  after_send-le conversation (Sent.restricted q code status) = omega arith
  after_send-le conversation (Sent.quota_limited q code status) = omega arith
  after_send-le conversation (Sent.retryable_error q code status retry) =
      send_failed-le q code status retry
  after_send-le conversation (Sent.refused e) = send_refused-le e
  after_send-le conversation Sent.broken = omega arith

  -- A message that may have been accepted is never returned.
  pub after_send-returns :
      (conversation : String) (a : Sent)
      → may_be_accepted a ≡ true
      → returns (after_send permit final draw conversation a).0 ≡ 0
  unfolding after_send
  after_send-returns conversation (Sent.sent m q status) h = refl
  after_send-returns conversation (Sent.delivery_unknown q status) h = refl
  after_send-returns conversation Sent.broken h = refl
  after_send-returns conversation (Sent.restricted q code status) h = cc
  after_send-returns conversation (Sent.quota_limited q code status) h = cc
  after_send-returns conversation (Sent.retryable_error q code status retry) h = cc
  after_send-returns conversation (Sent.refused e) h = cc

pub gate-returns :
    (r : Snapshot) (es : List Effect) (job : JobEnd) → gate r ≡ ends es job → returns es ≡ 0
unfolding gate delivery_action
gate-returns r es job h = ground arith

settle_reconciliation-returns :
    (n : ℕ) (conversation : String) (v : Reconciled)
    → returns (settle_reconciliation n conversation v) ≡ 0
settle_reconciliation-returns n conversation (matched message) = refl
settle_reconciliation-returns n conversation (unresolved reason) = ground arith

pub process_reconciliation-returns :
    (s : Store) (n : ℕ) (d : Delivery) (messages : String → List ReconciliationMessage)
    → returns (process_reconciliation s n d messages) ≡ 0
unfolding process_reconciliation
process_reconciliation-returns s n d messages = grind (arith, settle_reconciliation-returns)
