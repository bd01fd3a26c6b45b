-- ===== src/Worker/Dispatch/Claimable.antt =====
-- Which transactions make a delivery claimable again: only the return of a claimed delivery does.
use tiktok_outreach.Prelude.{
  ℕ, ◌≡◌, inl, inr, refl, sym, ap, ◌∙◌, subst, String, Bool, true, false, List, none, some, arith,
  ◌==◌, some_and, find, Option-cases, Bool-cases, ==_iff,
}
use mathlib.Core.Option
use tiktok_outreach.Prelude.Tables.{update_where, when, find-update_where, find_passed}
use tiktok_outreach.Worker.Dispatch.Rows.{Delivery, Store, Snapshot, is_delivery, is_claimable}
use tiktok_outreach.Worker.Dispatch.Completion.{all_frozen_recipients_terminal}
use tiktok_outreach.Worker.Dispatch.Settle.{
  frozen_states, complete_campaign_if_done, mark_sent, schedule_reconciliation,
  mark_terminal_failure, end_attempt, mark_delivery_unknown, mark_restricted, pause_shop,
  make_delivery_retryable, recover_dispatching_delivery,
}
use tiktok_outreach.Worker.Dispatch.Send.{
  Effect, governs, starts_attempt, sets_conversation, ends_attempt, recovers, marks_sent,
  marks_terminal, marks_unknown, marks_restricted, schedules, retries, pauses_shop, pauses_campaign,
  pauses_requested, completes_campaign, ends_run, leaves_unresolved,
}
use tiktok_outreach.Worker.Dispatch.Jobs.{apply, start_attempt, end_run, leave_unresolved}

-- The delivery `id` is there, and may be dispatched.
abbrev pub claimable_in : ℕ → List Delivery → Bool
claimable_in id ds = some_and (find (is_delivery id) ds) (λ d. is_claimable d.state)

abbrev pub is_retry : Effect → Bool
is_retry (retries code) = true
is_retry _ = false

module _ (id : ℕ) (ds : List Delivery) where
  abbrev pub Shuts : List Delivery → Type 0
  Shuts ds' = claimable_in id ds' ≡ true → claimable_in id ds ≡ true

  module _ (p : Delivery → Bool) (f : Delivery → Delivery)
      (same_id : (d : Delivery) → (f d).id ≡ d.id) where
    found :
        find (is_delivery id) (update_where p f ds)
        ≡ Option.map (when p f) (find (is_delivery id) ds)
    found = find-update_where (is_delivery id) p f (λ d. ap (λ n. n == id) (same_id d)) ds

    updated :
        (d : Delivery)
        → find (is_delivery id) ds ≡ some d
        → claimable_in id (update_where p f ds) ≡ is_claimable (when p f d).state
    updated d e = rw found (rw e refl)

    absent : find (is_delivery id) ds ≡ none → claimable_in id (update_where p f ds) ≡ false
    absent e = rw found (rw e refl)

    pub update-Shuts :
        ((d : Delivery) → is_claimable (f d).state ≡ true → is_claimable d.state ≡ true)
        → Shuts (update_where p f ds)
    update-Shuts shuts h = elim (Option-cases (find (is_delivery id) ds)) [
      | inl e ↦ let no : false ≡ true = sym (absent e) ∙ h in cc
      | inr (d, e) ↦ rw e (elim (Bool-cases (p d)) [
        | inl g ↦ shuts d (sym (rw g at (updated d e)) ∙ h)
        | inr g ↦ sym (rw g at (updated d e)) ∙ h
      ])
    ]

  -- An update of another delivery.
  pub update_other :
      (k : ℕ) (f : Delivery → Delivery)
      → ((d : Delivery) → (f d).id ≡ d.id)
      → (k == id) ≡ false
      → claimable_in id (update_where (is_delivery k) f ds) ≡ claimable_in id ds
  update_other k f same_id other = elim (Option-cases (find (is_delivery id) ds)) [
    | inl e ↦ absent (is_delivery k) f same_id e ∙ rw e refl
    | inr (d, e) ↦
        let mine : d.id ≡ id = (==_iff d.id id).0 (find_passed (is_delivery id) ds d e) in
        let not_changed : is_delivery k d ≡ false = ground arith in
        updated (is_delivery k) f same_id d e ∙ rw not_changed (rw e refl)
  ]

completes-same :
    (campaign : ℕ) (s : Store) → (complete_campaign_if_done campaign s).deliveries ≡ s.deliveries
unfolding complete_campaign_if_done
completes-same campaign s =
    elim (Bool-cases (all_frozen_recipients_terminal (frozen_states campaign s))) [
      | inl e ↦ rw e refl
      | inr e ↦ rw e refl
    ]

module _ (id : ℕ) (delays : List ℕ) (r : Snapshot) (n now : ℕ) (s : Store) where
  -- No transaction but a return makes a delivery claimable.
  pub apply-Shuts :
      (e : Effect)
      → is_retry e ≡ false
      → Shuts id s.deliveries (apply delays r n now e s).deliveries
  unfolding apply recover_dispatching_delivery mark_sent schedule_reconciliation
      mark_terminal_failure end_attempt mark_delivery_unknown mark_restricted pause_shop
      make_delivery_retryable end_run leave_unresolved start_attempt
  apply-Shuts (retries code) h = cc
  apply-Shuts (sets_conversation c) h =
      update-Shuts id s.deliveries (is_delivery r.delivery.id) _ (λ d. refl) (λ d k. k)
  apply-Shuts recovers h =
      update-Shuts id s.deliveries (is_delivery r.delivery.id) _ (λ d. refl) (λ d k. cc)
  apply-Shuts (marks_sent c m q) h =
      update-Shuts id s.deliveries (is_delivery r.delivery.id) _ (λ d. refl) (λ d k. cc)
  apply-Shuts (marks_terminal code) h =
      update-Shuts id s.deliveries (is_delivery r.delivery.id) _ (λ d. refl) (λ d k. cc)
  apply-Shuts (marks_unknown q status) h =
      update-Shuts id s.deliveries (is_delivery r.delivery.id) _ (λ d. refl) (λ d k. cc)
  apply-Shuts (marks_restricted code) h =
      update-Shuts id s.deliveries (is_delivery r.delivery.id) _ (λ d. refl) (λ d k. cc)
  apply-Shuts (leaves_unresolved k) h =
      update-Shuts id s.deliveries (is_delivery r.delivery.id) _ (λ d. refl) (λ d k. cc)
  apply-Shuts completes_campaign h =
      subst (Shuts id s.deliveries) (sym (completes-same r.recipient.campaign_id s)) (λ k. k)
  apply-Shuts (governs op call) h = λ k. k
  apply-Shuts starts_attempt h = λ k. k
  apply-Shuts (ends_attempt o reply) h = λ k. k
  apply-Shuts (schedules k) h = λ k. k
  apply-Shuts (pauses_shop reason kind) h = λ k. k
  apply-Shuts pauses_campaign h = λ k. k
  apply-Shuts pauses_requested h = λ k. k
  apply-Shuts (ends_run k message) h = λ k. k

  -- A return of a delivery leaves the others as they are.
  pub retry_other :
      (code : String)
      → (r.delivery.id == id) ≡ false
      → claimable_in id (apply delays r n now (retries code) s).deliveries
        ≡ claimable_in id s.deliveries
  unfolding apply make_delivery_retryable
  retry_other code other = update_other id s.deliveries r.delivery.id _ (λ d. refl) other
