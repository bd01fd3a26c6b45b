-- ===== src/Outreach/Queue/Queued.antt =====
-- What queueing a frozen campaign does for each of its recipients.
use tiktok_outreach.Prelude.{
  ℕ, ◌≡◌, inl, inr, sym, ap, ◌∙◌, subst, String, List, [], ◌∷◌, Option, some, arith, ◌==◌, find,
  select, count, Option-cases,
}
use mathlib.Core.Option
use tiktok_outreach.Prelude.Tables.{update_where}
use tiktok_outreach.Worker.Dispatch.Rows.{
  OutboxState, Campaign, Recipient, Reservation, OutboxEntry, AuditKind, Store, recipient?,
  is_entry,
}
use tiktok_outreach.Outreach.Results.{
  Result, ok, ok_of_chain, if-eq-ok, already_queued, ok_inj, unexpected, or_throw, ◌>>=◌,
}
use tiktok_outreach.Outreach.Expiry.{log}
use tiktok_outreach.Outreach.Queue.{
  is_frozen_version, queued_campaign, NewIds, far_future, is_frozen_recipient, delivers,
  new_delivery, delivery_for, queue_row, queue_with, queue_one, queue_all, extend_reservations,
  queue_recipients, queue_transaction,
}

-- The rows of a recipient: its own, its delivery and its entry.
pub record SameRows (k : ℕ) (s t : Store) : Type 0 where
  pub recipient : recipient? k t ≡ recipient? k s
  pub delivery : find (delivers k) t.deliveries ≡ find (delivers k) s.deliveries
  pub entry : find (is_entry k) t.outbox ≡ find (is_entry k) s.outbox

-- What a recipient has once it is queued: its delivery is the one that was there or the new one, and
-- its entry waits to be put on the queue.
pub record IsQueued (ids : NewIds) (campaign : ℕ) (p : Recipient) (s s' : Store) : Type 0 where
  pub hash : String
  pub entry : OutboxEntry
  pub hashed : p.content_hash ≡ some hash
  pub row : recipient? p.id s' ≡ some (queue_row p)
  pub delivered :
      find (delivers p.id) s'.deliveries
      ≡ some (delivery_for p (new_delivery (ids p.id) campaign hash p) s)
  pub listed : find (is_entry p.id) s'.outbox ≡ some entry
  pub is_pending : entry.state ≡ OutboxState.pending

module _ (ids : NewIds) (campaign : ℕ) where
  abbrev with_hash : Recipient → Store → String → Result Store
  with_hash p s hash = ok (queue_with campaign p (new_delivery (ids p.id) campaign hash p) s)

  queue_one-result :
      (p : Recipient) (s t : Store)
      → queue_one ids campaign p s ≡ ok t
      → (hash : String) × (p.content_hash ≡ some hash)
        × (queue_with campaign p (new_delivery (ids p.id) campaign hash p) s ≡ t)
  unfolding queue_one
  queue_one-result p s t h = elim (Option-cases p.content_hash) [
    | inl e ↦ ground arith
    | inr (hash, e) ↦
        (hash, e, ok_inj (subst (λ o. (or_throw o unexpected >>= with_hash p s) ≡ ok t) e h))
  ]

  queue_all-campaigns :
      (ps : List Recipient) (s t : Store)
      → queue_all ids campaign ps s ≡ ok t
      → t.campaigns ≡ s.campaigns
  unfolding queue_all
  queue_all-campaigns [] s t h = ap (λ x. x.campaigns) (sym (ok_inj h))
  queue_all-campaigns (p ∷ ps) s t h =
      let (u, rest, hu) = ok_of_chain _ _ h in
      let (hash, hh, done) = queue_one-result p s u hu in
      queue_all-campaigns ps u t rest ∙ ap (λ x. x.campaigns) (sym done)

  queue_recipients-result :
      (c : Campaign) (ps : List Recipient) (s t : Store)
      → queue_recipients ids c campaign ps s ≡ ok t
      → (u : Store) × (queue_all ids campaign ps (extend_reservations campaign s) ≡ ok u)
        × (log c AuditKind.campaign_queued u ≡ t)
  unfolding queue_recipients
  queue_recipients-result c [] s t h = cc
  queue_recipients-result c (p ∷ ps) s t h =
      let (u, done, hu) = ok_of_chain _ _ h in (u, hu, ok_inj done)

abbrev pub extended : Reservation → Reservation
extended v = record v { expires_at = far_future }

module _ (ids : NewIds) (c : Campaign) (id version : ℕ) (s s' : Store) where
  abbrev after_update : Store
  after_update = record s {
    campaigns = update_where (is_frozen_version id version) queued_campaign s.campaigns;
  }

  queued_all :
      queue_transaction ids c id version s ≡ ok s'
      → (u : Store) × (queue_all ids id
            (select (is_frozen_recipient id) s.recipients)
            (extend_reservations id after_update)
          ≡ ok u)
        × (log c AuditKind.campaign_queued u ≡ s')
  unfolding queue_transaction
  queued_all h =
      queue_recipients-result ids id c (select (is_frozen_recipient id) s.recipients) after_update
        s'
        (if-eq-ok (count (is_frozen_version id version) s.campaigns == 1)
          (queue_recipients ids c id (select (is_frozen_recipient id) s.recipients) after_update)
          already_queued h).1

  -- The campaign is QUEUED then.
  pub queued_campaigns :
      queue_transaction ids c id version s ≡ ok s' → s'.campaigns ≡ after_update.campaigns
  queued_campaigns h =
      let (u, hu, done) = queued_all h in
      ap (λ x. x.campaigns) (sym done)
      ∙ queue_all-campaigns ids id (select (is_frozen_recipient id) s.recipients)
          (extend_reservations id after_update) u hu
