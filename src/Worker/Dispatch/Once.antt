-- ===== src/Worker/Dispatch/Once.antt =====
-- No message is sent twice.
use tiktok_outreach.Prelude.{
  ℕ, ◌≤◌, ◌≡◌, ◌⊎◌, inl, inr, refl, sym, ◌∙◌, subst, String, Bool, true, false, List, [], ◌∷◌,
  Option, none, some, arith, ◌==◌, if◌then◌else◌, Option-cases, Bool-cases, ==_iff,
}
use tiktok_outreach.Domain.Reconciliation.{ReconciliationMessage}
use tiktok_outreach.Worker.Governor.{Permit}
use tiktok_outreach.Worker.Dispatch.Rows.{Delivery, Store, Snapshot, delivery?}
use tiktok_outreach.Worker.Dispatch.Reserve.{
  DispatchClaim, claimed, unclaimed, excluded, reserve_dispatch_slot,
}
use tiktok_outreach.Worker.Dispatch.Send.{Conversed, opened, refused, broken}
use tiktok_outreach.Worker.Dispatch.Jobs.{Gate, proceeds, ends, gate, load}
use tiktok_outreach.Worker.Dispatch.Claimable.{claimable_in}
use tiktok_outreach.Worker.Dispatch.Returns.{
  returns, refused-le, broken-le, after_send-le, gate-returns, process_reconciliation-returns,
}
use tiktok_outreach.Worker.Dispatch.World.{
  Phase, idle, loaded, started, conversed, ready, sending, settling, Event, reads, claims,
  converses, stores, awaits, sends, commits, reconciles, gated, job_read, claim_answered,
  reconciliation_read, conversed_phase, World, Moved, Setting, read_job, claim, read_reconciliation,
  advance, Step, step, run, start,
}
use tiktok_outreach.Worker.Dispatch.Moves.{
  left, holds, accepted, Move, keeps, takes, gives_back, accepts, advance-Move,
}

module _ (x : Setting) (now : ℕ) (w : World) where
  gated-le : (r : Snapshot) (g : Gate) → gate r ≡ g → returns (left (gated r g)) ≤ 1
  gated-le r proceeds e = omega arith
  gated-le r (ends es job) e = omega (arith, gate-returns r es job e)

  job_read-le : (o : Option Snapshot) → returns (left (job_read w o).phase) ≤ 1
  job_read-le none = omega arith
  job_read-le (some r) = gated-le r (gate r) refl

  claim_answered-le :
      (r : Snapshot) (o : Option (Store × DispatchClaim))
      → returns (left (claim_answered r w o).phase) ≤ 1
  claim_answered-le r none = omega arith
  claim_answered-le r (some (s, claimed n)) = omega arith
  claim_answered-le r (some (s, unclaimed)) = omega arith
  claim_answered-le r (some (s, excluded reason)) = omega arith

  reconciliation_read-le :
      (n : ℕ) (d : Delivery) (messages : String → List ReconciliationMessage) (o : Option Snapshot)
      → returns (left (reconciliation_read w n d messages o).phase) ≤ 1
  reconciliation_read-le n d messages none = omega arith
  reconciliation_read-le n d messages (some r) =
      omega (arith, process_reconciliation-returns w.store n d messages)

  delivery_read-le :
      (k n : ℕ) (messages : String → List ReconciliationMessage)
      → returns (left (read_reconciliation x now w k n messages).phase) ≤ 1
  unfolding read_reconciliation
  delivery_read-le k n messages = elim (Option-cases (delivery? k w.store)) [
    | inl e ↦ rw (e, read_reconciliation) (omega arith)
    | inr (d, e) ↦
        rw (e, read_reconciliation)
          (reconciliation_read-le n d messages (load x.open_id d.recipient_id w.store))
  ]

  conversed-le :
      (r : Snapshot) (n : ℕ) (permit : Permit) (final : Bool) (draw : ℕ) (a : Conversed)
      → returns (left (conversed_phase r n permit final draw a)) ≤ 1
  conversed-le r n permit final draw (opened c) = omega arith
  conversed-le r n permit final draw (refused e) = refused-le permit final draw e
  conversed-le r n permit final draw broken = broken-le permit final draw

  -- A worker never has two returns before it.
  advance-le :
      (p : Phase) (e : Event)
      → returns (left p) ≤ 1
      → returns (left (advance x now w p e).phase) ≤ 1
  unfolding advance read_job claim
  advance-le idle (reads recipient) one = job_read-le (load x.open_id recipient w.store)
  advance-le idle (reconciles k n messages) one = delivery_read-le k n messages
  advance-le (loaded r) claims one =
      claim_answered-le r (reserve_dispatch_slot r now x.shop_date w.store)
  advance-le (started r n) (converses permit final draw a) one =
      conversed-le r n permit final draw a
  advance-le (sending r n c) (sends permit final draw a) one = after_send-le permit final draw c a
  advance-le (settling r n []) commits one = omega arith
  advance-le (settling r n (e ∷ es)) commits one = ground arith
  advance-le (conversed r n c) (stores true) one = omega arith
  advance-le (conversed r n c) (stores false) one = omega arith
  advance-le (ready r n c) (awaits true) one = omega arith
  advance-le (ready r n c) (awaits false) one = omega arith
  advance-le p e one = ground arith

module _ (id : ℕ) where
  -- What holds between the steps: one worker at most holds the delivery, and while one does, or
  -- while the delivery may be claimed, no message for it may have been accepted.
  record Inv (w : World) : Type 0 where
    returns_once : (i : ℕ) → returns (left (w.workers i)) ≤ 1
    one_holder : (i j : ℕ) → holds id (w.workers i) ≡ true → holds id (w.workers j) ≡ true → i ≡ j
    shut : (i : ℕ) → holds id (w.workers i) ≡ true → claimable_in id w.store.deliveries ≡ false
    unsent_held : (i : ℕ) → holds id (w.workers i) ≡ true → accepted id w.sendings ≡ 0
    unsent_open : claimable_in id w.store.deliveries ≡ true → accepted id w.sendings ≡ 0
    once : accepted id w.sendings ≤ 1

  module _ (w : World) (inv : Inv w) (i : ℕ) (m : Moved) where
    abbrev moved : ℕ → Phase
    moved j = if j == i then m.phase else w.workers j

    returns-moved : returns (left m.phase) ≤ 1 → (j : ℕ) → returns (left (moved j)) ≤ 1
    returns-moved one j = elim (Bool-cases (j == i)) [
      | inl e ↦ rw e one
      | inr e ↦ rw e (inv.returns_once j)
    ]

    -- A holder after the step is the worker that moved, or another one that held before.
    holder :
        (j : ℕ)
        → holds id (moved j) ≡ true
        → ((j ≡ i) × (holds id m.phase ≡ true))
          ⊎ (((j == i) ≡ false) × (holds id (w.workers j) ≡ true))
    holder j h = elim (Bool-cases (j == i)) [
      | inl e ↦
          inl (
            (==_iff j i).0 e,
            subst (λ b. holds id (if b then m.phase else w.workers j) ≡ true) e h,
          )
      | inr e ↦ inr (e, subst (λ b. holds id (if b then m.phase else w.workers j) ≡ true) e h)
    ]

    held_before :
        (holds id m.phase ≡ true → holds id (w.workers i) ≡ true)
        → (j : ℕ) → holds id (moved j) ≡ true
        → holds id (w.workers j) ≡ true
    held_before back j h = elim (holder j h) [
      | inl (e, k) ↦ subst (λ l. holds id (w.workers l) ≡ true) (sym e) (back k)
      | inr (e, k) ↦ k
    ]

    -- Where the delivery may be claimed, nobody holds it.
    only_mover :
        claimable_in id w.store.deliveries ≡ true → (j : ℕ) → holds id (moved j) ≡ true → j ≡ i
    only_mover free j h = elim (holder j h) [
      | inl (e, k) ↦ e
      | inr (e, k) ↦ let no : true ≡ false = sym free ∙ inv.shut j k in cc
    ]

    -- Where the holder lets go of it, nobody holds it.
    nobody :
        holds id (w.workers i) ≡ true
        → holds id m.phase ≡ false
        → (j : ℕ) → holds id (moved j) ≡ false
    nobody held let_go j = elim (Bool-cases (holds id (moved j))) [
      | inr free ↦ free
      | inl h ↦ elim (holder j h) [
        | inl (e, k) ↦ let no : true ≡ false = sym k ∙ let_go in cc
        | inr (e, k) ↦ let same : i ≡ j = inv.one_holder i j held k in ground arith
      ]
    ]

    -- A test that fails does not succeed.
    false_of {ℓ} : {A : Type ℓ} {b : Bool} → b ≡ false → b ≡ true → A
    false_of closed open_too = let n : false ≡ true = sym closed ∙ open_too in cc

    -- A step keeps the invariant, if it is a move.
    Move-Inv :
        returns (left m.phase) ≤ 1
        → Move
            (holds id (w.workers i))
            (holds id m.phase)
            (claimable_in id w.store.deliveries)
            (claimable_in id m.store.deliveries)
            (accepted id w.sendings)
            (accepted id m.sendings)
        → Inv (record { store = m.store; workers = moved; sendings = m.sendings })
    Move-Inv one (keeps back shuts same) = record {
      returns_once = returns-moved one;
      one_holder = λ j k a b. inv.one_holder j k (held_before back j a) (held_before back k b);
      shut = λ j a. elim (Bool-cases (claimable_in id m.store.deliveries)) [
        | inl g ↦ false_of (inv.shut j (held_before back j a)) (shuts g)
        | inr g ↦ g
      ];
      unsent_held = λ j a. same ∙ inv.unsent_held j (held_before back j a);
      unsent_open = λ a. same ∙ inv.unsent_open (shuts a);
      once = rw same inv.once;
    }
    Move-Inv one (takes free closed same) = record {
      returns_once = returns-moved one;
      one_holder = λ j k a b. only_mover free j a ∙ sym (only_mover free k b);
      shut = λ j a. closed;
      unsent_held = λ j a. same ∙ inv.unsent_open free;
      unsent_open = λ a. false_of closed a;
      once = rw same inv.once;
    }
    Move-Inv one (gives_back held let_go same) = record {
      returns_once = returns-moved one;
      one_holder = λ j k a b. false_of (nobody held let_go j) a;
      shut = λ j a. false_of (nobody held let_go j) a;
      unsent_held = λ j a. false_of (nobody held let_go j) a;
      unsent_open = λ a. same ∙ inv.unsent_held i held;
      once = rw same inv.once;
    }
    Move-Inv one (accepts held let_go shuts more) = record {
      returns_once = returns-moved one;
      one_holder = λ j k a b. false_of (nobody held let_go j) a;
      shut = λ j a. false_of (nobody held let_go j) a;
      unsent_held = λ j a. false_of (nobody held let_go j) a;
      unsent_open = λ a. false_of (inv.shut i held) (shuts a);
      once = omega (arith, more, inv.unsent_held i held);
    }

  step-Inv : (x : Setting) (w : World) (e : Step) → Inv w → Inv (step x w e)
  unfolding step
  step-Inv x w e inv =
      let p = w.workers e.worker in
      Move-Inv w inv e.worker (advance x e.now w p e.event)
        (advance-le x e.now w p e.event (inv.returns_once e.worker))
        (advance-Move id w x e.now p e.event (inv.returns_once e.worker))

  run-Inv_from : (x : Setting) (w : World) (es : List Step) → Inv w → Inv (run x w es)
  unfolding run
  run-Inv_from x w [] inv = inv
  run-Inv_from x w (e ∷ es) inv = run-Inv_from x (step x w e) es (step-Inv x w e inv)

  start-Inv : (s : Store) → Inv (start s)
  start-Inv s = record {
    returns_once = λ i. omega arith;
    one_holder = λ i j a b. cc;
    shut = λ i a. cc;
    unsent_held = λ i a. refl;
    unsent_open = λ a. refl;
    once = omega arith;
  }

  -- Over every history of the workers' and the operator's steps, in any order, from a database on
  -- which nobody works: for no delivery is Send Message called twice with an answer after which the
  -- provider may have accepted the message. Workers may crash between any two steps.
  pub sent_once :
      (x : Setting) (s : Store) (es : List Step) → accepted id (run x (start s) es).sendings ≤ 1
  sent_once x s es = (run-Inv_from x (start s) es (start-Inv s)).once

  -- Over every such history two workers never hold a claim of the same delivery at a time.
  pub held_once :
      (x : Setting) (s : Store) (es : List Step) (i j : ℕ)
      → holds id ((run x (start s) es).workers i) ≡ true
      → holds id ((run x (start s) es).workers j) ≡ true
      → i ≡ j
  held_once x s es = (run-Inv_from x (start s) es (start-Inv s)).one_holder
