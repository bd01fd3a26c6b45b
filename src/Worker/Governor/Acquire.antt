-- ===== src/Worker/Governor/Acquire.antt =====
-- `acquire`: housekeeping of the row, then the guards, then the permit.
use tiktok_outreach.Prelude.{
  ℕ, suc, ◌+◌, ◌-◌, min, max, String, Bool, true, false, List, [], ◌∷◌, Option, none, some, ltb,
  leb, length, if◌then◌else◌, some_and, or_else,
}
use tiktok_outreach.Worker.Governor.Lane.{
  Operation, create_conversation, send_message, LimiterState, recovering, is_healthy,
  is_quota_blocked, attempt, Permit, Lane, Options, technical_max_for, send_interval, new_lane,
  record_event, drop_expired,
}

pub data PermitResult : Type 0 where
  acquired : Permit → ℕ → PermitResult
  refused : ℕ → LimiterState → Option ℕ → Option String → PermitResult

abbrev pub is_acquired : PermitResult → Bool
is_acquired (acquired p n) = true
is_acquired (refused d s u q) = false

-- The upsert, and the clamp where the stored concurrency exceeds the limit.
unfoldable pub refresh : Options → Operation → Option Lane → Lane
refresh o op none = new_lane o op
refresh o op (some l) =
    let top = technical_max_for o op in
    if ltb top l.effective_concurrency
    then record l { technical_max = top; effective_concurrency = top; healthy_success_count = 0 }
    else record l { technical_max = top }

unfoldable pub expire_permits : ℕ → Lane → Lane
unfolding drop_expired
expire_permits now l = record l { permits = drop_expired now l.permits }

abbrev pub is_later : Option ℕ → ℕ → Bool
is_later at now = some_and at (λ t. ltb now t)

-- A wait that is over makes the lane `RECOVERING`; `acquire` gets here only if none is left.
unfoldable pub leave_backoff : Lane → Lane
leave_backoff l = elim l.next_permitted_at [
  | none ↦ l
  | some t ↦
      if is_healthy l.state
      then l
      else record l { state = recovering; next_permitted_at = none; retry_after_ms = none }
]

-- The earliest instant at which Send Message may be admitted again.
abbrev pub next_send_at : Options → Operation → Lane → Option ℕ
next_send_at o create_conversation l = none
next_send_at o send_message l = elim l.last_request_at [
  | none ↦ none
  | some t ↦ some (t + send_interval o)
]

-- The least of the expiry instants.
unfoldable pub earliest_expiry : List Permit → Option ℕ
earliest_expiry [] = none
earliest_expiry (p ∷ ps) = elim (earliest_expiry ps) [
  | none ↦ some p.expires_at
  | some t ↦ some (min p.expires_at t)
]

abbrev pub until_expiry : ℕ → Option ℕ → ℕ
until_expiry now none = 100
until_expiry now (some t) = t - now

abbrev pub busy_delay : ℕ → List Permit → ℕ
busy_delay now ps = max 25 (min 250 (until_expiry now (earliest_expiry ps)))

abbrev pub new_permit : Options → String → ℕ → Lane → Permit
new_permit o owner now l = record {
  id = l.next_permit_id;
  owner = owner;
  expires_at = now + o.permit_lease_ms;
}

unfoldable pub grant : Options → String → ℕ → Lane → Lane × PermitResult
grant o owner now l = (
  record l {
    permits = new_permit o owner now l ∷ l.permits;
    last_request_at = some now;
    events =
        record_event attempt (record { http_status = none; business_code = none }) now l.events;
    next_permit_id = suc l.next_permit_id;
  },
  acquired (new_permit o owner now l) l.effective_concurrency,
)

-- From the spacing of Send Message on.
unfoldable pub admit : Options → Operation → String → ℕ → Lane → Lane × PermitResult
unfolding grant earliest_expiry
admit o op owner now l =
    if is_later (next_send_at o op l) now
    then (l, refused (or_else (next_send_at o op l) 0 - now) l.state (next_send_at o op l) none)
    else if leb l.effective_concurrency (length l.permits)
    then (l, refused (busy_delay now l.permits) l.state none none)
    else grant o owner now l

unfoldable pub guarded : Options → Operation → String → ℕ → Lane → Lane × PermitResult
unfolding admit leave_backoff
guarded o op owner now l =
    if is_quota_blocked l.state
    then (l, refused 60000 l.state none l.quota_code)
    else if is_later l.next_permitted_at now
    then (
      l,
      refused (max 25 (or_else l.next_permitted_at 0 - now)) l.state l.next_permitted_at none,
    )
    else admit o op owner now (leave_backoff l)

unfoldable pub acquire : Options → Operation → String → ℕ → Option Lane → Lane × PermitResult
unfolding guarded refresh expire_permits
acquire o op owner now stored = guarded o op owner now (expire_permits now (refresh o op stored))
