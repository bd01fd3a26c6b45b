-- ===== src/Outreach/Send/Unqueued.antt =====
-- Which parts of send queue nothing: the expiry and freeze (apps/api/src/outreach/outreach.service.ts).
use tiktok_outreach.Prelude.{
  String, ℕ, ◌+◌, length, ◌≡◌, inl, inr, refl, ◌∙◌, subst, Bool, true, false, List, [], ◌∷◌, Option,
  none, some, arith, ◌==◌, Bool-cases, Option-cases, count, select,
}
use tiktok_outreach.Worker.Dispatch.Rows.{Campaign, Store, campaign?}
use tiktok_outreach.Outreach.Results.{
  then_get, MethodEnd, Result, ok, err, ok_of_chain, ok_inj, commit,
}
use tiktok_outreach.Outreach.Expiry.{expire_one, expire_each, expire_frozen_campaigns}
use tiktok_outreach.Outreach.Freeze.{
  Outside, Freezing, drop_over, start_freezing, freeze_ms, freeze_reason, selected_of,
  finish_freeze, freeze_selected, freeze_transaction, freeze_found, if_available, freeze,
  is_current,
}
use tiktok_outreach.Outreach.Freeze.Loop.{freeze_all-Continues}
use tiktok_outreach.Worker.Maintenance.{is_expired}

-- The deliveries and the entries for the queue are as they were.
pub record QueuesNothing (s t : Store) : Type 0 where
  pub deliveries : t.deliveries ≡ s.deliveries
  pub outbox : t.outbox ≡ s.outbox

pub QueuesNothing-trans :
    {s t u : Store} → QueuesNothing s t → QueuesNothing t u → QueuesNothing s u
QueuesNothing-trans a b = record {
  deliveries = b.deliveries ∙ a.deliveries;
  outbox = b.outbox ∙ a.outbox;
}

abbrev pub same : {s : Store} → QueuesNothing s s
same = record { deliveries = refl; outbox = refl }

expire_one-QueuesNothing :
    (now : ℕ) (c : Campaign) (s : Store) → QueuesNothing s (expire_one now c s)
unfolding expire_one
expire_one-QueuesNothing now c s = ground arith

expire_each-QueuesNothing :
    (now : ℕ) (cs : List Campaign) (s : Store) → QueuesNothing s (expire_each now cs s)
unfolding expire_each
expire_each-QueuesNothing now [] s = same
expire_each-QueuesNothing now (c ∷ cs) s =
    QueuesNothing-trans (expire_one-QueuesNothing now c s)
      (expire_each-QueuesNothing now cs (expire_one now c s))

pub expire-QueuesNothing : (now : ℕ) (s : Store) → QueuesNothing s (expire_frozen_campaigns now s).1
unfolding expire_frozen_campaigns
expire-QueuesNothing now s = expire_each-QueuesNothing now (select (is_expired now) s.campaigns) s

finish-QueuesNothing :
    (c : Campaign) (expires_at count : ℕ) (f : Freezing) (s : Store)
    → QueuesNothing s f.store
    → QueuesNothing s (finish_freeze c expires_at count f)
finish-QueuesNothing c expires_at count f s h = elim (Bool-cases (f.final_selected == 0)) [
  | inl e ↦ rw e (record { deliveries = h.deliveries; outbox = h.outbox })
  | inr e ↦ rw e (record { deliveries = h.deliveries; outbox = h.outbox })
]

freeze_selected-QueuesNothing :
    (w : Outside) (now : ℕ) (c : Campaign) (s t : Store)
    → freeze_selected w now c s ≡ ok t
    → QueuesNothing s t
unfolding freeze_selected
freeze_selected-QueuesNothing w now c s t h =
    let u = drop_over c.shop_id now s in
    let (f, done, hf) = ok_of_chain _ _ h in
    let kept =
      freeze_all-Continues w c (now + freeze_ms) (freeze_reason c now u) 0 (selected_of c u)
        (start_freezing u) f hf in
    subst (QueuesNothing s) (ok_inj done) (
      finish-QueuesNothing c (now + freeze_ms) (length (selected_of c u)) f s
        (record { deliveries = kept.deliveries; outbox = kept.outbox }))

freeze_transaction-QueuesNothing :
    (w : Outside) (now id version : ℕ) (s t : Store)
    → freeze_transaction w now id version s ≡ ok t
    → QueuesNothing s t
unfolding freeze_transaction
freeze_transaction-QueuesNothing w now id version s t h = elim (Option-cases (campaign? id s)) [
  | inl e ↦ ground arith
  | inr (c, e) ↦
      let chosen : freeze_selected w now c s ≡ ok t = ground arith in
      freeze_selected-QueuesNothing w now c s t chosen
]

commit-QueuesNothing :
    (s u : Store) (r : Result Store)
    → QueuesNothing s u
    → ((t : Store) → r ≡ ok t → QueuesNothing u t)
    → QueuesNothing s (commit u r).1
commit-QueuesNothing s u (ok t) h f = QueuesNothing-trans h (f t refl)
commit-QueuesNothing s u (err e) h f = h

then_get-QueuesNothing :
    (b : Bool) (s : Store) (a : MethodEnd) → QueuesNothing s a.1 → QueuesNothing s (then_get b a).1
then_get-QueuesNothing true s (none, t) h = h
then_get-QueuesNothing true s (some e, t) h = h
then_get-QueuesNothing false s a h = h

freeze_found-QueuesNothing :
    (w : Outside) (now id version : ℕ) (s : Store) (o : Option Campaign)
    → QueuesNothing s (freeze_found w now id version s o).1
unfolding freeze_found
freeze_found-QueuesNothing w now id version s none = same
freeze_found-QueuesNothing w now id version s (some c) = elim (Bool-cases (is_current c version)) [
  | inl e ↦ rw e (
      then_get-QueuesNothing w.get_fails s (commit s (freeze_transaction w now id version s)) (
        commit-QueuesNothing s s (freeze_transaction w now id version s) same
          (λ t h. freeze_transaction-QueuesNothing w now id version s t h)))
  | inr e ↦ rw e same
]

if_available-QueuesNothing :
    (w : Outside) (now : ℕ) (o : Option String) (s : Store) (a : MethodEnd)
    → QueuesNothing s a.1
    → QueuesNothing s (if_available w now o s a).1
if_available-QueuesNothing w now none s a h = h
if_available-QueuesNothing w now (some reason) s a h = same

pub freeze-QueuesNothing :
    (w : Outside) (now id version : ℕ) (s : Store) → QueuesNothing s (freeze w now id version s).1
unfolding freeze
freeze-QueuesNothing w now id version s =
    let t = (expire_frozen_campaigns now s).1 in
    if_available-QueuesNothing w now w.unavailable s
      (freeze_found w now id version t (campaign? id t))
      (QueuesNothing-trans (expire-QueuesNothing now s)
        (freeze_found-QueuesNothing w now id version t (campaign? id t)))
