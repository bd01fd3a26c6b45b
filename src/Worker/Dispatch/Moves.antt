-- ===== src/Worker/Dispatch/Moves.antt =====
-- What one step of a worker does to one delivery: whether the worker holds it, whether it may be
-- claimed, and how many messages for it may have been accepted.
use tiktok_outreach.Prelude.{
  ℕ, suc, ◌≤◌, ◌≡◌, inl, inr, refl, sym, ◌∙◌, subst, String, Bool, true, false, ◌&&◌, List, [], ◌∷◌,
  Option, none, some, arith, ltb, ◌==◌, count, Option-cases, Bool-cases, or_else,
}
use tiktok_outreach.Domain.Reconciliation.{ReconciliationMessage}
use tiktok_outreach.Worker.Governor.{Permit}
use tiktok_outreach.Outreach.Control.{pause, resume, cancel}
use tiktok_outreach.Worker.Dispatch.Rows.{Delivery, Store, Snapshot, delivery?}
use tiktok_outreach.Worker.Dispatch.Reserve.{
  DispatchClaim, claimed, unclaimed, excluded, reserve_dispatch_slot,
}
use tiktok_outreach.Worker.Dispatch.Send.{
  Conversed, opened, refused, broken, Sent, may_be_accepted, Effect, retries,
}
use tiktok_outreach.Worker.Dispatch.Jobs.{Gate, proceeds, ends, gate, load, start_attempt, apply}
use tiktok_outreach.Worker.Dispatch.Claimable.{claimable_in, Shuts, apply-Shuts, retry_other}
use tiktok_outreach.Worker.Dispatch.Takes.{
  claimed_takes, claimed_other, excluded-Shuts, unclaimed-same, pause-Shuts, resume-Shuts,
  cancel-Shuts,
}
use tiktok_outreach.Worker.Dispatch.Returns.{
  returns, after_send-returns, gate-returns, process_reconciliation-returns,
}
use tiktok_outreach.Worker.Dispatch.World.{
  Phase, idle, loaded, taken, started, conversed, ready, sending, settling, Event, reads, claims,
  starts, converses, stores, awaits, sends, commits, crashes, reconciles, operator_pauses,
  operator_resumes, operator_cancels, gated, job_read, claim_answered, reconciliation_read,
  conversed_phase, with_phase, with_store, Sending, World, Moved, Setting, read_job, claim,
  read_reconciliation, advance,
}

-- The transactions that are left to a worker.
abbrev pub left : Phase → List Effect
left (settling r n es) = es
left _ = []

-- The worker has claimed the delivery and may still return it.
abbrev pub holds : ℕ → Phase → Bool
holds id idle = false
holds id (loaded r) = false
holds id (taken r n) = r.delivery.id == id
holds id (started r n) = r.delivery.id == id
holds id (conversed r n c) = r.delivery.id == id
holds id (ready r n c) = r.delivery.id == id
holds id (sending r n c) = r.delivery.id == id
holds id (settling r n es) = r.delivery.id == id && ltb 0 (returns es)

abbrev pub is_accepted : ℕ → Sending → Bool
is_accepted id s = s.delivery_id == id && s.may_be_accepted

-- The calls of Send Message for the delivery that the provider may have accepted.
abbrev pub accepted : ℕ → List Sending → ℕ
accepted id sendings = count (is_accepted id) sendings

-- A step: `h` of holding, `o` of being claimable, `n` of the messages, before and after.
pub data Move (h h' o o' : Bool) (n n' : ℕ) : Type 0 where
  keeps : (h' ≡ true → h ≡ true) → (o' ≡ true → o ≡ true) → n' ≡ n → Move h h' o o' n n'
  takes : o ≡ true → o' ≡ false → n' ≡ n → Move h h' o o' n n'
  gives_back : h ≡ true → h' ≡ false → n' ≡ n → Move h h' o o' n n'
  accepts : h ≡ true → h' ≡ false → (o' ≡ true → o ≡ true) → n' ≡ suc n → Move h h' o o' n n'

module _ (id : ℕ) (w : World) where
  abbrev Moves : Phase → Moved → Type 0
  Moves p m =
      Move (holds id p) (holds id m.phase) (claimable_in id w.store.deliveries)
        (claimable_in id m.store.deliveries) (accepted id w.sendings) (accepted id m.sendings)

  module _ (x : Setting) (now : ℕ) where
    claim-Move :
        (r : Snapshot) (o : Option (Store × DispatchClaim))
        → reserve_dispatch_slot r now x.shop_date w.store ≡ o
        → Moves (loaded r) (claim_answered r w o)
    claim-Move r none e = keeps (λ h. h) (λ h. h) refl
    claim-Move r (some (s, claimed n)) e = elim (Bool-cases (r.delivery.id == id)) [
      | inl mine ↦
          let same : r.delivery.id ≡ id = ground arith in
          let (before, after) = claimed_takes r now x.shop_date w.store s n e in
          takes (subst (λ k. claimable_in k w.store.deliveries ≡ true) same before)
            (subst (λ k. claimable_in k s.deliveries ≡ false) same after) refl
      | inr other ↦
          keeps (λ h. let no : false ≡ true = sym other ∙ h in cc)
            (λ h. sym (claimed_other r now x.shop_date w.store s n id e other) ∙ h) refl
    ]
    claim-Move r (some (s, unclaimed)) e =
        keeps (λ h. h)
          (subst (λ t. Shuts id w.store.deliveries t.deliveries)
            (sym (unclaimed-same r now x.shop_date w.store s e)) (λ h. h))
          refl
    claim-Move r (some (s, excluded reason)) e =
        keeps (λ h. ground arith) (excluded-Shuts r now x.shop_date w.store s id reason e) refl

    started-Shuts :
        (r : Snapshot) (n : ℕ)
        → Shuts id w.store.deliveries (start_attempt r.delivery.id n now w.store).deliveries
    unfolding start_attempt
    started-Shuts r n = λ h. h

    gate-Move : (r : Snapshot) (g : Gate) → gate r ≡ g → Moves idle (with_phase (gated r g) w)
    gate-Move r proceeds e = keeps (λ h. h) (λ h. h) refl
    gate-Move r (ends es job) e =
        let none_left = gate-returns r es job e in keeps (λ h. ground arith) (λ h. h) refl

    reconciliation-Move :
        (n : ℕ) (d : Delivery) (messages : String → List ReconciliationMessage)
        (o : Option Snapshot)
        → Moves idle (reconciliation_read w n d messages o)
    reconciliation-Move n d messages none = keeps (λ h. h) (λ h. h) refl
    reconciliation-Move n d messages (some r) =
        let none_left = process_reconciliation-returns w.store n d messages in
        keeps (λ h. ground arith) (λ h. h) refl

    commit-Move :
        (r : Snapshot) (n : ℕ) (e : Effect) (es : List Effect)
        → returns (e ∷ es) ≤ 1
        → Moves
            (settling r n (e ∷ es))
            (with_store (settling r n es) (apply x.delays r n now e w.store) w)
    commit-Move r n (retries code) es one = elim (Bool-cases (r.delivery.id == id)) [
      | inl mine ↦ gives_back (ground arith) (ground arith) refl
      | inr other ↦
          keeps (λ h. ground arith)
            (λ h. sym (retry_other id x.delays r n now w.store code other) ∙ h) refl
    ]
    commit-Move r n e es one =
        keeps (λ h. ground arith) (apply-Shuts id x.delays r n now w.store e refl) refl

    send-Move :
        (r : Snapshot) (n : ℕ) (c : String) (permit : Permit) (final : Bool) (draw : ℕ) (a : Sent)
        → Moves (sending r n c) (advance x now w (sending r n c) (sends permit final draw a))
    unfolding advance
    send-Move r n c permit final draw a = elim (Bool-cases (r.delivery.id == id)) [
      | inl mine ↦ elim (Bool-cases (may_be_accepted a)) [
        | inl good ↦
            let none_left = after_send-returns permit final draw c a good in
            accepts mine (ground arith) (λ h. h) (ground arith)
        | inr bad ↦ keeps (λ h. mine) (λ h. h) (ground arith)
      ]
      | inr other ↦ keeps (λ h. ground arith) (λ h. h) (ground arith)
    ]

    job-Move : (o : Option Snapshot) → Moves idle (job_read w o)
    job-Move none = keeps (λ h. h) (λ h. h) refl
    job-Move (some r) = gate-Move r (gate r) refl

    delivery-Move :
        (k n : ℕ) (messages : String → List ReconciliationMessage)
        → Moves idle (read_reconciliation x now w k n messages)
    unfolding read_reconciliation
    delivery-Move k n messages = elim (Option-cases (delivery? k w.store)) [
      | inl e ↦ rw (e, read_reconciliation) (keeps (λ h. h) (λ h. h) refl)
      | inr (d, e) ↦
          rw (e, read_reconciliation)
            (reconciliation-Move n d messages (load x.open_id d.recipient_id w.store))
    ]

    conversed-Move :
        (r : Snapshot) (n : ℕ) (permit : Permit) (final : Bool) (draw : ℕ) (a : Conversed)
        → Moves (started r n) (with_phase (conversed_phase r n permit final draw a) w)
    conversed-Move r n permit final draw (opened c) = keeps (λ h. h) (λ h. h) refl
    conversed-Move r n permit final draw (refused e) = keeps (λ h. ground arith) (λ h. h) refl
    conversed-Move r n permit final draw broken = keeps (λ h. ground arith) (λ h. h) refl

    operator-Move :
        (p : Phase) (s : Store)
        → Shuts id w.store.deliveries s.deliveries
        → Moves p (with_store p s w)
    operator-Move p s shuts = keeps (λ h. h) shuts refl

    same-Move : (p : Phase) → Moves p (with_phase p w)
    same-Move p = keeps (λ h. h) (λ h. h) refl

    -- Every step of a worker is such a move.
    pub advance-Move :
        (p : Phase) (e : Event) → returns (left p) ≤ 1 → Moves p (advance x now w p e)
    unfolding advance read_job claim
    advance-Move idle (reads recipient) one = job-Move (load x.open_id recipient w.store)
    advance-Move idle (reconciles k n messages) one = delivery-Move k n messages
    advance-Move (loaded r) claims one =
        claim-Move r (reserve_dispatch_slot r now x.shop_date w.store) refl
    advance-Move (taken r n) starts one = keeps (λ h. h) (started-Shuts r n) refl
    advance-Move (started r n) (converses permit final draw a) one =
        conversed-Move r n permit final draw a
    advance-Move (conversed r n c) (stores true) one =
        keeps (λ h. h) (apply-Shuts id x.delays r n now w.store (Effect.sets_conversation c) refl)
          refl
    advance-Move (conversed r n c) (stores false) one = keeps (λ h. ground arith) (λ h. h) refl
    advance-Move (ready r n c) (awaits true) one = keeps (λ h. h) (λ h. h) refl
    advance-Move (ready r n c) (awaits false) one = keeps (λ h. ground arith) (λ h. h) refl
    advance-Move (sending r n c) (sends permit final draw a) one =
        send-Move r n c permit final draw a
    advance-Move (settling r n []) commits one = keeps (λ h. cc) (λ h. h) refl
    advance-Move (settling r n (e ∷ es)) commits one = commit-Move r n e es one
    advance-Move p crashes one = keeps (λ h. cc) (λ h. h) refl
    advance-Move p (operator_pauses k) one =
        operator-Move p (or_else (pause k w.store) w.store) (pause-Shuts id k w.store)
    advance-Move p (operator_resumes k) one =
        operator-Move p (or_else (resume k w.store) w.store) (resume-Shuts id k w.store)
    advance-Move p (operator_cancels k) one =
        operator-Move p (or_else (cancel k w.store) w.store) (cancel-Shuts id k w.store)
    advance-Move p e one = same-Move p
