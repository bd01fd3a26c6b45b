-- ===== src/Outreach/Send/Committed.antt =====
-- How queueFrozen ends (apps/api/src/outreach/outreach.service.ts), by whether its transaction has
-- committed.
use tiktok_outreach.Prelude.{
  ◌⊎◌, ap, find, take, String, ℕ, length, ◌≡◌, inl, inr, refl, ◌∙◌, Bool, true, false, List, [],
  ◌∷◌, Option, none, some, arith, Bool-cases, select,
}
use tiktok_outreach.Worker.Dispatch.Rows.{
  Campaign, Recipient, Delivery, OutboxEntry, Store, campaign?, is_campaign,
}
use tiktok_outreach.Outreach.Results.{then_get, OutreachError, MethodEnd, Result, ok, err, commit}
use tiktok_outreach.Outreach.Expiry.{expire_frozen_campaigns}
use tiktok_outreach.Worker.Maintenance.{is_due, delivery_of, ensure_entry}
use tiktok_outreach.Outreach.Queue.{
  QueueAnswers, NewIds, queue_frozen, queue_found, is_queueable, queue_transaction, then_reconcile,
  ensure_entries, add_job, lives, after_turns, is_reconciled, Reconciling, reconcile_entry,
  reconcile_entries, reconcile_outbox, cut, reconcile_throws, is_frozen_version, queued_campaign,
}
use tiktok_outreach.Outreach.Queue.Queued.{queued_campaigns}
use tiktok_outreach.Prelude.Tables.{find_passed, find-update_where}
use tiktok_outreach.Outreach.Send.{is_past_send}
use tiktok_outreach.Outreach.Send.Unqueued.{
  QueuesNothing, QueuesNothing-trans, expire-QueuesNothing,
}

-- The campaign is one that has been sent: queueFrozen has committed.
abbrev pub Committed : ℕ → Store → Type 0
Committed id t = (c : Campaign) × (campaign? id t ≡ some c) × (is_past_send c.state ≡ true)

-- The end of queueFrozen: where its transaction has not committed, nothing is queued.
abbrev pub Ends : ℕ → Store → MethodEnd → Type 0
Ends id s (none, t) = Committed id t
Ends id s (some e, t) = QueuesNothing s t ⊎ Committed id t

then_get-Ends :
    (b : Bool) (id : ℕ) (s : Store) (a : MethodEnd) → Ends id s a → Ends id s (then_get b a)
then_get-Ends true id s (none, t) h = inr h
then_get-Ends true id s (some e, t) h = h
then_get-Ends false id s a h = h

ensure_entries-campaigns :
    (ps : List Recipient) (s : Store) → (ensure_entries ps s).campaigns ≡ s.campaigns
unfolding ensure_entries
ensure_entries-campaigns [] s = refl
ensure_entries-campaigns (p ∷ ps) s = ensure_entries-campaigns ps _ ∙ ensured (delivery_of p.id s)
  where
    ensured :
        (o : Option Delivery)
        → (elim o as (λ x. Store) [ none ↦ s | some d ↦ ensure_entry p d s ]).campaigns
          ≡ s.campaigns
    ensured none = refl
    ensured (some d) = refl

add_job-campaigns :
    (e : OutboxEntry) (o : Option String) (r : Reconciling)
    → (add_job e o r).2.campaigns ≡ r.2.campaigns
add_job-campaigns e none r = refl
add_job-campaigns e (some x) r = refl

reconcile_entry-campaigns :
    (q : QueueAnswers) (e : OutboxEntry) (r : Reconciling)
    → (reconcile_entry q e r).2.campaigns ≡ r.2.campaigns
reconcile_entry-campaigns q e r = elim (Bool-cases (lives (q.job e.recipient_id))) [
  | inl g ↦ rw g refl
  | inr g ↦ rw g (add_job-campaigns e (q.added e.recipient_id) r)
]

reconcile_entries-campaigns :
    (q : QueueAnswers) (es : List OutboxEntry) (r : Reconciling)
    → (reconcile_entries q es r).2.campaigns ≡ r.2.campaigns
unfolding reconcile_entries
reconcile_entries-campaigns q [] r = refl
reconcile_entries-campaigns q (e ∷ es) r =
    reconcile_entries-campaigns q es (reconcile_entry q e r) ∙ reconcile_entry-campaigns q e r

reconcile-campaigns :
    (q : QueueAnswers) (s : Store) → (reconcile_outbox q s).2.campaigns ≡ s.campaigns
unfolding reconcile_outbox
reconcile-campaigns q s = elim (Bool-cases q.read_only) [
  | inl e ↦ rw e refl
  | inr e ↦
      let ps = take q.limit (select (is_due s) s.recipients) in
      let t = ensure_entries (cut q.broken ps) s in
      let entries = take q.limit (select (is_reconciled q t) t.outbox) in
      rw e (
        reconcile_entries-campaigns q (cut (after_turns (length ps) q.broken) entries) (0, 0, t)
        ∙ ensure_entries-campaigns (cut q.broken ps) s)
]

then_reconcile-Ends :
    (q : QueueAnswers) (id : ℕ) (s : Store) (a : MethodEnd)
    → Ends id s a
    → Ends id s (then_reconcile q a)
then_reconcile-Ends q id s (some e, t) h = h
then_reconcile-Ends q id s (none, t) h =
    by_error (reconcile_throws q)
      (h.0, ap (find (is_campaign id)) (reconcile-campaigns q t) ∙ h.1, h.2)
  where
    by_error :
        (o : Option OutreachError)
        → Committed id (reconcile_outbox q t).2
        → Ends id s (o, (reconcile_outbox q t).2)
    by_error none c = c
    by_error (some e) c = inr c

-- Where the transaction has committed, the campaign is QUEUED.
queue_transaction-Committed :
    (ids : NewIds) (c : Campaign) (now id version : ℕ) (s t : Store)
    → campaign? id s ≡ some c
    → is_queueable now version c ≡ true
    → queue_transaction ids c id version s ≡ ok t
    → Committed id t
queue_transaction-Committed ids c now id version s t at ready h =
    let own : is_campaign id c ≡ true = find_passed (is_campaign id) s.campaigns c at in
    let chosen : is_frozen_version id version c ≡ true = ground arith in
    (
      queued_campaign c,
      ap (find (is_campaign id)) (queued_campaigns ids c id version s t h)
          ∙ find-update_where (is_campaign id) (is_frozen_version id version) queued_campaign
              (λ x. refl) s.campaigns
          ∙ rw at (rw chosen refl),
      refl,
    )

commit-Ends :
    (id : ℕ) (s u : Store) (r : Result Store)
    → QueuesNothing s u
    → ((t : Store) → r ≡ ok t → Committed id t)
    → Ends id s (commit u r)
commit-Ends id s u (ok t) h f = f t refl
commit-Ends id s u (err e) h f = inl h

queue_found-Ends :
    (q : QueueAnswers) (ids : NewIds) (now id version : ℕ) (s t : Store) (o : Option Campaign)
    → campaign? id t ≡ o
    → QueuesNothing s t
    → Ends id s (queue_found q ids now id version t o)
unfolding queue_found
queue_found-Ends q ids now id version s t none at h = inl h
queue_found-Ends q ids now id version s t (some c) at h =
    elim (Bool-cases (is_queueable now version c)) [
      | inl e ↦ rw e (
          then_get-Ends q.get_fails id s _ (
            then_reconcile-Ends q id s (commit t (queue_transaction ids c id version t)) (
              commit-Ends id s t (queue_transaction ids c id version t) h
                (λ u k. queue_transaction-Committed ids c now id version t u at e k))))
      | inr e ↦ rw e (inl h)
    ]

pub queue_frozen-Ends :
    (q : QueueAnswers) (ids : NewIds) (now id version : ℕ) (s t : Store)
    → QueuesNothing s t
    → Ends id s (queue_frozen q ids now id version t)
unfolding queue_frozen
queue_frozen-Ends q ids now id version s t h =
    let u = (expire_frozen_campaigns now t).1 in
    queue_found-Ends q ids now id version s u (campaign? id u) refl
      (QueuesNothing-trans h (expire-QueuesNothing now t))
