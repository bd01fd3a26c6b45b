-- ===== src/Outreach/Queue.antt =====
-- queueFrozen of OutreachService (apps/api/src/outreach/outreach.service.ts), and reconcileOutbox
-- (apps/api/src/shared.ts).
pub mod Queued
use tiktok_outreach.Prelude.{
  ℕ, zero, suc, ◌-◌, String, Bool, true, false, not, ◌&&◌, ◌||◌, List, [], ◌∷◌, Option, none, some,
  ◌==◌, leb, if◌then◌else◌, some_and, is_some, any, select, take, length, find, count,
}
use tiktok_outreach.Prelude.Tables.{update_where, upsert, upserted}
use tiktok_outreach.Worker.Dispatch.Rows.{
  CampaignState, RecipientState, DeliveryState, OutboxState, Campaign, Recipient, Delivery,
  Reservation, OutboxEntry, AuditKind, Store, is_campaign, is_recipient, is_entry, campaign?,
  recipient?, delivery?, is_active,
}
use tiktok_outreach.Worker.Dispatch.Settle.{is_waiting}
use tiktok_outreach.Worker.Maintenance.{
  expired_row, is_expired, is_reserved_of, reserves_for, delivery_of, is_due, ensure_entry,
  JobState, alive, is_waiting_entry,
}
use tiktok_outreach.Outreach.Results.{
  OutreachError, frozen_stale, already_queued, no_frozen_recipients, unexpected, campaign_not_found,
  Result, ok, err, ◌>>=◌, or_throw, MethodEnd, commit, then_get, is_frozen_campaign,
}
use tiktok_outreach.Outreach.Expiry.{log, expire_frozen_campaigns}
use tiktok_outreach.Outreach.Freeze.{is_selected_of}

-- What the queue answers, for the recipient of a job; the error of `add`, if it throws. Which entries
-- are available by now, and whether the program runs in read-only mode. Where the database fails within
-- reconcileOutbox, `broken` is the number of turns of its two loops that are done by then; the last
-- three say that a read after the transaction throws: the `get` of queueFrozen, requiredCampaign in
-- the handlers of send, and the `get` of send.
pub record QueueAnswers : Type 0 where
  pub read_only : Bool
  pub job : ℕ → JobState
  pub added : ℕ → Option String
  pub available : OutboxEntry → Bool
  pub limit : ℕ
  pub broken : Option ℕ
  pub get_fails : Bool
  pub reread_fails : Bool
  pub answer_fails : Bool

-- The IDs that the database gives to the deliveries that are created.
abbrev pub NewIds : Type 0
NewIds = ℕ → ℕ

-- The first loop of reconcileOutbox: a missing entry is created.
unfoldable pub ensure_entries : List Recipient → Store → Store
ensure_entries [] s = s
ensure_entries (p ∷ ps) s =
    ensure_entries ps (elim (delivery_of p.id s) [ none ↦ s | some d ↦ ensure_entry p d s ])

abbrev is_queued_state : RecipientState → Bool
is_queued_state RecipientState.queued = true
is_queued_state _ = false

abbrev pub delivers_queued : Store → OutboxEntry → Bool
delivers_queued s e =
    some_and (delivery? e.delivery_id s)
      (λ d. some_and (recipient? d.recipient_id s) (λ p. is_queued_state p.state))

abbrev pub is_reconciled : QueueAnswers → Store → OutboxEntry → Bool
is_reconciled q s e =
    is_waiting e.state
    && q.available e
    && some_and (campaign? e.campaign_id s) (λ c. is_active c.state)
    && delivers_queued s e

abbrev pub mark_enqueued : OutboxEntry → Store → Store
mark_enqueued entry s = record s {
  outbox =
      update_where (λ e. is_entry entry.recipient_id e && is_waiting e.state && delivers_queued s e)
        (λ e. record e { state = OutboxState.enqueued; last_error = none }) s.outbox;
}

abbrev pub mark_failed : OutboxEntry → String → Store → Store
mark_failed entry error s = record s {
  outbox =
      update_where (is_entry entry.recipient_id)
        (λ e. record e { state = OutboxState.pending; last_error = some error }) s.outbox;
}

abbrev pub lives : JobState → Bool
lives alive = true
lives _ = false

-- The counters `enqueued` and `failed`, and the tables.
abbrev pub Reconciling : Type 0
Reconciling = ℕ × ℕ × Store

abbrev pub add_job : OutboxEntry → Option String → Reconciling → Reconciling
add_job entry none (enqueued, failed, s) = (suc enqueued, failed, mark_enqueued entry s)
add_job entry (some error) (enqueued, failed, s) = (enqueued, suc failed, mark_failed entry error s)

abbrev pub reconcile_entry : QueueAnswers → OutboxEntry → Reconciling → Reconciling
reconcile_entry q entry (enqueued, failed, s) =
    if lives (q.job entry.recipient_id)
    then (enqueued, failed, mark_enqueued entry s)
    else add_job entry (q.added entry.recipient_id) (enqueued, failed, s)

unfoldable pub reconcile_entries : QueueAnswers → List OutboxEntry → Reconciling → Reconciling
reconcile_entries q [] r = r
reconcile_entries q (e ∷ es) r = reconcile_entries q es (reconcile_entry q e r)

-- The turns of a loop that are done before the database fails, and what is left for the next loop.
abbrev pub cut {ℓ} : {A : Type ℓ} → Option ℕ → List A → List A
cut none xs = xs
cut (some n) xs = take n xs

abbrev pub after_turns : ℕ → Option ℕ → Option ℕ
after_turns k none = none
after_turns k (some n) = some (n - k)

unfoldable pub reconcile_outbox : QueueAnswers → Store → Reconciling
unfolding ensure_entries reconcile_entries
reconcile_outbox q s =
    if q.read_only
    then (0, 0, s)
    else let ps = take q.limit (select (is_due s) s.recipients) in
      let t = ensure_entries (cut q.broken ps) s in
      let entries = take q.limit (select (is_reconciled q t) t.outbox) in
      reconcile_entries q (cut (after_turns (length ps) q.broken) entries) (0, 0, t)

abbrev pub reconcile_throws : QueueAnswers → Option OutreachError
reconcile_throws q = if not q.read_only && is_some q.broken then some unexpected else none

-- `9999-12-31T23:59:59.999Z`.
abbrev pub far_future : ℕ
far_future = 253402300799999

abbrev pub is_frozen_version : ℕ → ℕ → Campaign → Bool
is_frozen_version id version c =
    is_campaign id c && is_frozen_campaign c.state && c.version == version

abbrev is_reserved_state : RecipientState → Bool
is_reserved_state RecipientState.reserved = true
is_reserved_state _ = false

abbrev pub is_frozen_recipient : ℕ → Recipient → Bool
is_frozen_recipient campaign p = is_selected_of campaign p && is_reserved_state p.state

abbrev pub holds_for : ℕ → Store → Reservation → Bool
holds_for campaign s v = some_and (recipient? v.recipient_id s) (is_selected_of campaign)

abbrev pub delivers : ℕ → Delivery → Bool
delivers recipient d = d.recipient_id == recipient

abbrev pub new_delivery : ℕ → ℕ → String → Recipient → Delivery
new_delivery id campaign content_hash p = record {
  id = id;
  recipient_id = p.id;
  campaign_id = campaign;
  state = DeliveryState.pending;
  content_hash = content_hash;
  attempt_count = 0;
  first_dispatched_at = none;
  last_attempted_at = none;
  sent_at = none;
  conversation_id = none;
  external_message_id = none;
  provider_request_id = none;
  last_error_code = none;
}

abbrev pub pending_entry : ℕ → Delivery → Recipient → OutboxEntry
pending_entry campaign d p = record {
  recipient_id = p.id;
  campaign_id = campaign;
  delivery_id = d.id;
  state = OutboxState.pending;
  last_error = none;
}

-- The delivery that the first upsert answers: the one that is there, or the new one.
abbrev pub delivery_for : Recipient → Delivery → Store → Delivery
delivery_for p new s = upserted (λ d. d) new (find (delivers p.id) s.deliveries)

abbrev pub make_pending : OutboxEntry → OutboxEntry
make_pending e = record e { state = OutboxState.pending; last_error = none }

abbrev pub queue_row : Recipient → Recipient
queue_row p = record p { state = RecipientState.queued }

abbrev pub queue_with : ℕ → Recipient → Delivery → Store → Store
queue_with campaign p new s = record s {
  deliveries = upsert (delivers p.id) (λ d. d) new s.deliveries;
  outbox =
      upsert (is_entry p.id) make_pending (pending_entry campaign (delivery_for p new s) p)
        s.outbox;
  recipients = update_where (is_recipient p.id) queue_row s.recipients;
}

-- One turn of the loop over the frozen recipients. The database refuses a delivery with no hash.
unfoldable pub queue_one : NewIds → ℕ → Recipient → Store → Result Store
queue_one ids campaign p s = do
  hash ← or_throw p.content_hash unexpected
  ok (queue_with campaign p (new_delivery (ids p.id) campaign hash p) s)

unfoldable pub queue_all : NewIds → ℕ → List Recipient → Store → Result Store
unfolding queue_one
queue_all ids campaign [] s = ok s
queue_all ids campaign (p ∷ ps) s = queue_one ids campaign p s >>= queue_all ids campaign ps

abbrev pub queued_campaign : Campaign → Campaign
queued_campaign c = record c { state = CampaignState.queued; version = suc c.version }

abbrev pub extend_reservations : ℕ → Store → Store
extend_reservations campaign s = record s {
  reservations =
      update_where (holds_for campaign s) (λ v. record v { expires_at = far_future })
        s.reservations;
}

-- From the recipients on that are found.
unfoldable pub queue_recipients : NewIds → Campaign → ℕ → List Recipient → Store → Result Store
unfolding queue_all
queue_recipients ids c id [] s = err no_frozen_recipients
queue_recipients ids c id (p ∷ ps) s = queue_all ids id (p ∷ ps) (extend_reservations id s) >>= λ t.
    ok (log c AuditKind.campaign_queued t)

unfoldable pub queue_transaction : NewIds → Campaign → ℕ → ℕ → Store → Result Store
unfolding queue_recipients
queue_transaction ids c id version s =
    if count (is_frozen_version id version) s.campaigns == 1
    then queue_recipients ids c id (select (is_frozen_recipient id) s.recipients) (record s {
      campaigns = update_where (is_frozen_version id version) queued_campaign s.campaigns;
    })
    else err already_queued

abbrev pub is_queueable : ℕ → ℕ → Campaign → Bool
is_queueable now version c =
    is_frozen_campaign c.state
    && c.version == version
    && some_and c.freeze_expires_at (λ t. not (leb t now))

-- After the transaction the outbox is reconciled, which may throw.
abbrev pub then_reconcile : QueueAnswers → MethodEnd → MethodEnd
then_reconcile q (none, s) =
    let (enqueued, failed, t) = reconcile_outbox q s in (reconcile_throws q, t)
then_reconcile q (some e, s) = (some e, s)

-- From the campaign on, as it is found or not.
unfoldable pub queue_found : QueueAnswers → NewIds → ℕ → ℕ → ℕ → Store → Option Campaign → MethodEnd
unfolding queue_transaction reconcile_outbox
queue_found q ids now id version s none = (some campaign_not_found, s)
queue_found q ids now id version s (some c) =
    if is_queueable now version c
    then then_get q.get_fails (then_reconcile q (commit s (queue_transaction ids c id version s)))
    else (some frozen_stale, s)

unfoldable pub queue_frozen : QueueAnswers → NewIds → ℕ → ℕ → ℕ → Store → MethodEnd
unfolding queue_found expire_frozen_campaigns
queue_frozen q ids now id version s =
    let t = (expire_frozen_campaigns now s).1 in queue_found q ids now id version t (campaign? id t)
