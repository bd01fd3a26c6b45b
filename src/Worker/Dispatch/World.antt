-- ===== src/Worker/Dispatch/World.antt =====
-- Several workers on one database: every transaction and every call of the provider is one step, in
-- any order, and a worker may stop at any of them (it crashes, a call of the database throws, or its
-- job is put off). The operator's pause, resume and cancel come in between.
use tiktok_outreach.Prelude.{
  ℕ, String, Bool, true, false, List, [], ◌∷◌, Option, none, some, ◌==◌, if◌then◌else◌, or_else,
}
use tiktok_outreach.Domain.Reconciliation.{ReconciliationMessage}
use tiktok_outreach.Worker.Governor.{Permit}
use tiktok_outreach.Outreach.Control.{pause, resume, cancel}
use tiktok_outreach.Worker.Dispatch.Rows.{Delivery, Store, Snapshot, delivery?}
use tiktok_outreach.Worker.Dispatch.Reserve.{
  DispatchClaim, claimed, unclaimed, excluded, reserve_dispatch_slot,
}
use tiktok_outreach.Worker.Dispatch.Send.{
  Conversed, opened, refused, broken, Sent, may_be_accepted, Effect, completes_campaign,
  conversation_refused, conversation_broken, after_send,
}
use tiktok_outreach.Worker.Dispatch.Jobs.{
  Gate, proceeds, ends, gate, load, persistence_failed, paused_before_send, process_reconciliation,
  start_attempt, apply,
}

-- Where a worker is in its job: the recipient that it has read, its attempt, its conversation.
pub data Phase : Type 0 where
  idle : Phase
  loaded : Snapshot → Phase
  taken started : Snapshot → ℕ → Phase
  conversed ready sending : Snapshot → ℕ → String → Phase
  settling : Snapshot → ℕ → List Effect → Phase

pub data Event : Type 0 where
  -- processSend reads the recipient.
  reads : ℕ → Event
  claims starts : Event
  converses : Permit → Bool → ℕ → Conversed → Event
  -- Whether the conversation could be stored.
  stores : Bool → Event
  -- Whether the permit came before the campaign was no longer active.
  awaits : Bool → Event
  sends : Permit → Bool → ℕ → Sent → Event
  commits crashes : Event
  reconciles : ℕ → ℕ → (String → List ReconciliationMessage) → Event
  operator_pauses operator_resumes operator_cancels : ℕ → Event

-- A call of Send Message: its delivery, and whether the provider may have accepted it.
pub record Sending : Type 0 where
  pub delivery_id : ℕ
  pub may_be_accepted : Bool

pub record World : Type 0 where
  pub store : Store
  pub workers : ℕ → Phase
  pub sendings : List Sending

pub record Moved : Type 0 where
  pub phase : Phase
  pub store : Store
  pub sendings : List Sending

abbrev pub with_phase : Phase → World → Moved
with_phase p w = record { phase = p; store = w.store; sendings = w.sendings }

abbrev pub with_store : Phase → Store → World → Moved
with_store p s w = record { phase = p; store = s; sendings = w.sendings }

-- What the program takes from outside: the day of an instant in a time zone, the creators' Open
-- IDs, and the configured delays of the reconciliation.
pub record Setting : Type 0 where
  pub shop_date : String → ℕ → ℕ
  pub open_id : ℕ → Option String
  pub delays : List ℕ

abbrev pub gated : Snapshot → Gate → Phase
gated r proceeds = loaded r
gated r (ends es job) = settling r r.delivery.attempt_count es

abbrev pub job_read : World → Option Snapshot → Moved
job_read w none = with_phase idle w
job_read w (some r) = with_phase (gated r (gate r)) w

abbrev pub claim_answered : Snapshot → World → Option (Store × DispatchClaim) → Moved
claim_answered r w none = with_phase idle w
claim_answered r w (some (s, claimed n)) = with_store (taken r n) s w
claim_answered r w (some (s, unclaimed)) = with_store idle s w
claim_answered r w (some (s, excluded reason)) =
    with_store (settling r 0 (completes_campaign ∷ [])) s w

abbrev pub conversed_phase : Snapshot → ℕ → Permit → Bool → ℕ → Conversed → Phase
conversed_phase r n permit final draw (opened id) = conversed r n id
conversed_phase r n permit final draw (refused e) =
    settling r n (conversation_refused permit final draw e).0
conversed_phase r n permit final draw broken =
    settling r n (conversation_broken permit final draw).0

abbrev pub reconciliation_read :
    World → ℕ → Delivery → (String → List ReconciliationMessage) → Option Snapshot → Moved
reconciliation_read w n d messages none = with_phase idle w
reconciliation_read w n d messages (some r) =
    with_phase (settling r n (process_reconciliation w.store n d messages)) w

module _ (x : Setting) (now : ℕ) (w : World) where
  unfoldable pub read_job : ℕ → Moved
  read_job recipient = job_read w (load x.open_id recipient w.store)

  unfoldable pub claim : Snapshot → Moved
  claim r = claim_answered r w (reserve_dispatch_slot r now x.shop_date w.store)

  unfoldable pub read_reconciliation : ℕ → ℕ → (String → List ReconciliationMessage) → Moved
  read_reconciliation id n messages = elim (delivery? id w.store) [
    | none ↦ with_phase idle w
    | some d ↦ reconciliation_read w n d messages (load x.open_id d.recipient_id w.store)
  ]

  -- An event that a worker's phase does not allow changes nothing.
  unfoldable pub advance : Phase → Event → Moved
  unfolding read_job claim read_reconciliation
  advance idle (reads recipient) = read_job recipient
  advance idle (reconciles id n messages) = read_reconciliation id n messages
  advance (loaded r) claims = claim r
  advance (taken r n) starts =
      with_store (started r n) (start_attempt r.delivery.id n now w.store) w
  advance (started r n) (converses permit final draw answer) =
      with_phase (conversed_phase r n permit final draw answer) w
  advance (conversed r n c) (stores true) =
      with_store (ready r n c) (apply x.delays r n now (Effect.sets_conversation c) w.store) w
  advance (conversed r n c) (stores false) = with_phase (settling r n persistence_failed) w
  advance (ready r n c) (awaits true) = with_phase (sending r n c) w
  advance (ready r n c) (awaits false) = with_phase (settling r n paused_before_send) w
  advance (sending r n c) (sends permit final draw answer) = record {
    phase = settling r n (after_send permit final draw c answer).0;
    store = w.store;
    sendings =
        record { delivery_id = r.delivery.id; may_be_accepted = may_be_accepted answer }
        ∷ w.sendings;
  }
  advance (settling r n []) commits = with_phase idle w
  advance (settling r n (e ∷ es)) commits =
      with_store (settling r n es) (apply x.delays r n now e w.store) w
  advance p crashes = with_phase idle w
  advance p (operator_pauses campaign) = with_store p (or_else (pause campaign w.store) w.store) w
  advance p (operator_resumes campaign) = with_store p (or_else (resume campaign w.store) w.store) w
  advance p (operator_cancels campaign) = with_store p (or_else (cancel campaign w.store) w.store) w
  advance p e = with_phase p w

-- The instant, the worker and the event.
pub record Step : Type 0 where
  pub now : ℕ
  pub worker : ℕ
  pub event : Event

unfoldable pub step : Setting → World → Step → World
unfolding advance
step x w e =
    let m = advance x e.now w (w.workers e.worker) e.event in
    record {
      store = m.store;
      workers = λ j. if j == e.worker then m.phase else w.workers j;
      sendings = m.sendings;
    }

unfoldable pub run : Setting → World → List Step → World
unfolding step
run x w [] = w
run x w (e ∷ es) = run x (step x w e) es

-- Nobody works yet, and nothing was sent.
abbrev pub start : Store → World
start s = record { store = s; workers = λ j. idle; sendings = [] }
