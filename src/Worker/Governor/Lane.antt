-- ===== src/Worker/Governor/Lane.antt =====
-- The rows of the outbound limiter (packages/db/prisma/schema.prisma) and the options.
use tiktok_outreach.Prelude.{
  ℕ, ◌≤◌, max, String, Bool, true, false, not, ◌&&◌, List, [], ◌∷◌, Option, none, some, ◌==◌,
  str_eq, leb, select, or_else,
}

pub data Operation : Type 0 where
  create_conversation send_message : Operation

pub data LimiterState : Type 0 where
  healthy recovering throttled transient_backoff quota_blocked : LimiterState

abbrev pub is_healthy : LimiterState → Bool
is_healthy healthy = true
is_healthy recovering = false
is_healthy throttled = false
is_healthy transient_backoff = false
is_healthy quota_blocked = false

abbrev pub is_quota_blocked : LimiterState → Bool
is_quota_blocked healthy = false
is_quota_blocked recovering = false
is_quota_blocked throttled = false
is_quota_blocked transient_backoff = false
is_quota_blocked quota_blocked = true

pub data Outcome : Type 0 where
  attempt accepted restricted throttled_response transient quota_refused : Outcome
  released : String → Outcome

pub record ResponseMeta : Type 0 where
  pub http_status : Option ℕ
  pub business_code : Option String

pub record Event : Type 0 where
  pub outcome : Outcome
  pub occurred_at : ℕ
  pub meta : ResponseMeta

-- The database makes up the IDs of permits; here they are counted.
pub record Permit : Type 0 where
  pub id : ℕ
  pub owner : String
  pub expires_at : ℕ

pub record Lane : Type 0 where
  pub state : LimiterState
  pub effective_concurrency : ℕ
  pub technical_max : ℕ
  pub healthy_success_count : ℕ
  pub consecutive_throttle_count : ℕ
  pub consecutive_failure_count : ℕ
  pub next_permitted_at : Option ℕ
  pub last_request_at : Option ℕ
  pub last_success_at : Option ℕ
  pub last_throttle_at : Option ℕ
  pub retry_after_ms : Option ℕ
  pub last_http_status : Option ℕ
  pub last_business_code : Option String
  pub quota_blocked_at : Option ℕ
  pub quota_code : Option String
  pub quota_detail : Option String
  pub permits : List Permit
  pub events : List Event
  pub next_permit_id : ℕ

pub record Options : Type 0 where
  pub initial_concurrency : ℕ
  pub technical_max_concurrency : ℕ
  pub permit_lease_ms : ℕ
  pub send_message_interval_ms : Option ℕ

-- What the constructor checks, and what the configuration guarantees besides: one permit at least.
pub record IsConfigured (o : Options) : Type 0 where
  pub positive : 1 ≤ o.initial_concurrency
  pub ordered : o.initial_concurrency ≤ o.technical_max_concurrency

-- The limits that `acquire` uses for an operation.
abbrev pub technical_max_for : Options → Operation → ℕ
technical_max_for o create_conversation = o.technical_max_concurrency
technical_max_for o send_message = 1

abbrev pub initial_for : Options → Operation → ℕ
initial_for o create_conversation = o.initial_concurrency
initial_for o send_message = 1

abbrev pub send_interval : Options → ℕ
send_interval o = max 1000 (or_else o.send_message_interval_ms 1000)

-- A new row: the defaults of the schema where `create` gives no value.
unfoldable pub new_lane : Options → Operation → Lane
new_lane o op = record {
  state = healthy;
  effective_concurrency = initial_for o op;
  technical_max = technical_max_for o op;
  healthy_success_count = 0;
  consecutive_throttle_count = 0;
  consecutive_failure_count = 0;
  next_permitted_at = none;
  last_request_at = none;
  last_success_at = none;
  last_throttle_at = none;
  retry_after_ms = none;
  last_http_status = none;
  last_business_code = none;
  quota_blocked_at = none;
  quota_code = none;
  quota_detail = none;
  permits = [];
  events = [];
  next_permit_id = 0;
}

-- A field given as `undefined` in an update stays as it is.
abbrev pub patch {ℓ} : {A : Type ℓ} → Option A → Option A → Option A
patch none old = old
patch (some a) old = some a

abbrev pub record_event : Outcome → ResponseMeta → ℕ → List Event → List Event
record_event outcome meta now events =
    record { outcome = outcome; occurred_at = now; meta = meta } ∷ events

-- `deleteMany({ where: { id, owner } })`.
abbrev pub is_permit : ℕ → String → Permit → Bool
is_permit id owner p = p.id == id && str_eq p.owner owner

unfoldable pub drop_permit : ℕ → String → List Permit → List Permit
drop_permit id owner ps = select (λ p. not (is_permit id owner p)) ps

-- `deleteMany({ where: { expiresAt: { lte: now } } })`.
unfoldable pub drop_expired : ℕ → List Permit → List Permit
drop_expired now ps = select (λ p. not (leb p.expires_at now)) ps
