-- ===== src/Worker/Governor/Spacing.antt =====
-- Send Message is admitted at most once in each interval.
use tiktok_outreach.Prelude.{
  true, false, Bool-cases, inl, inr, leb, if◌then◌else◌, head?, sym, ◌∙◌, ℕ, ◌+◌, ◌*◌, ◌≤◌, ◌≡◌,
  refl, String, Bool, List, [], ◌∷◌, Option, none, some, arith, length,
}
use tiktok_outreach.Worker.Governor.Lane.{
  send_message, Outcome, attempt, Event, Lane, Options, send_interval, new_lane,
}
use tiktok_outreach.Worker.Governor.Acquire.{
  is_later, next_send_at, refused, busy_delay, refresh, expire_permits, leave_backoff, grant, admit,
  guarded, acquire,
}
use tiktok_outreach.Worker.Governor.Settle.{
  settle_healthy, settle_throttle, settle_transient, settle_quota_blocked, settle_release,
}
use tiktok_outreach.Worker.Governor.Calls.{
  Call, acquires, healthies, throttles, transients, quota_blocks, releases, publishes_heartbeat,
  resumes, settle, run, Holds, run-Holds,
}

abbrev pub is_attempt : Outcome → Bool
is_attempt attempt = true
is_attempt _ = false

-- The instants of the admissions, newest first.
abbrev pub attempt_times : List Event → List ℕ
attempt_times [] = []
attempt_times (e ∷ es) =
    let rest = attempt_times es in if is_attempt e.outcome then e.occurred_at ∷ rest else rest

-- Each is at least `k` later than the one before it.
abbrev pub IsSpaced : ℕ → List ℕ → Type 0
IsSpaced k [] = Unit
IsSpaced k (t ∷ []) = Unit
IsSpaced k (t ∷ u ∷ ts) = (u + k ≤ t) × IsSpaced k (u ∷ ts)

-- The oldest of the instants `t ∷ ts`.
abbrev pub get_or_last : ℕ → List ℕ → ℕ
get_or_last t [] = t
get_or_last t (u ∷ ts) = get_or_last u ts

-- The row remembers the newest admission.
record Spaced (o : Options) (l : Lane) : Type 0 where
  latest : head? (attempt_times l.events) ≡ l.last_request_at
  spaced : IsSpaced (send_interval o) (attempt_times l.events)

IsSpaced-cons :
    (k now : ℕ) (ts : List ℕ)
    → ((t : ℕ) → head? ts ≡ some t → t + k ≤ now)
    → IsSpaced k ts
    → IsSpaced k (now ∷ ts)
IsSpaced-cons k now [] h s = tt
IsSpaced-cons k now (t ∷ ts) h s = (h t refl, s)

module _ (o : Options) where
  same-Spaced :
      (l m : Lane)
      → attempt_times m.events ≡ attempt_times l.events
      → m.last_request_at ≡ l.last_request_at
      → Spaced o l
      → Spaced o m
  same-Spaced l m e r v = record { latest = rw (e, r) v.latest; spaced = rw e v.spaced }

  ready :
      (now t : ℕ) (l : Lane)
      → l.last_request_at ≡ some t
      → is_later (next_send_at o send_message l) now ≡ false
      → t + send_interval o ≤ now
  ready now t l e h = ground arith

  grant-Spaced :
      (owner : String) (now : ℕ) (l : Lane)
      → Spaced o l
      → is_later (next_send_at o send_message l) now ≡ false
      → Spaced o (grant o owner now l).0
  unfolding grant
  grant-Spaced owner now l v h = record {
    latest = refl;
    spaced =
        IsSpaced-cons (send_interval o) now _ (λ t e. ready now t l (sym v.latest ∙ e) h) v.spaced;
  }

  admit-Spaced :
      (owner : String) (now : ℕ) (l : Lane)
      → Spaced o l
      → Spaced o (admit o send_message owner now l).0
  unfolding admit
  admit-Spaced owner now l v = elim (Bool-cases (is_later (next_send_at o send_message l) now)) [
    | inl e ↦ rw e v
    | inr e ↦ rw e (full (leb l.effective_concurrency (length l.permits)) e)
  ]
    where
      full :
          (b : Bool)
          → is_later (next_send_at o send_message l) now ≡ false
          → Spaced o
              (if b
                then (l, refused (busy_delay now l.permits) l.state none none)
                else grant o owner now l).0
      full true e = v
      full false e = grant-Spaced owner now l v e

  leave_backoff-Spaced : (l : Lane) → Spaced o l → Spaced o (leave_backoff l)
  unfolding leave_backoff
  leave_backoff-Spaced l v = ground (arith, v.latest, v.spaced)

  guarded-Spaced :
      (owner : String) (now : ℕ) (l : Lane)
      → Spaced o l
      → Spaced o (guarded o send_message owner now l).0
  unfolding guarded
  guarded-Spaced owner now l v =
      ground (arith, v, admit-Spaced owner now (leave_backoff l) (leave_backoff-Spaced l v))

  refresh-Spaced : (l : Lane) → Spaced o l → Spaced o (refresh o send_message (some l))
  unfolding refresh
  refresh-Spaced l v = ground (arith, v.latest, v.spaced)

  new_lane-Spaced : Spaced o (new_lane o send_message)
  unfolding new_lane
  new_lane-Spaced = record { latest = refl; spaced = tt }

  expire_permits-Spaced : (now : ℕ) (l : Lane) → Spaced o l → Spaced o (expire_permits now l)
  unfolding expire_permits
  expire_permits-Spaced now l v = record { latest = v.latest; spaced = v.spaced }

  acquire-Spaced_new :
      (owner : String) (now : ℕ) → Spaced o (acquire o send_message owner now none).0
  unfolding acquire
  acquire-Spaced_new owner now =
      guarded-Spaced owner now (expire_permits now (new_lane o send_message))
        (expire_permits-Spaced now (new_lane o send_message) new_lane-Spaced)

  acquire-Spaced :
      (owner : String) (now : ℕ) (l : Lane)
      → Spaced o l
      → Spaced o (acquire o send_message owner now (some l)).0
  unfolding acquire
  acquire-Spaced owner now l v =
      guarded-Spaced owner now (expire_permits now (refresh o send_message (some l)))
        (expire_permits-Spaced now (refresh o send_message (some l)) (refresh-Spaced l v))

  settle-Spaced :
      (now : ℕ) (c : Call) (l : Lane) → Spaced o l → Spaced o (settle o send_message now c l)
  unfolding settle
  settle-Spaced now (acquires owner) l v = acquire-Spaced owner now l v
  settle-Spaced now (healthies p true meta) l v =
      unfold settle_healthy in same-Spaced l _ refl refl v
  settle-Spaced now (healthies p false meta) l v =
      unfold settle_healthy in same-Spaced l _ refl refl v
  settle-Spaced now (throttles p meta r draw) l v =
      unfold settle_throttle in same-Spaced l _ refl refl v
  settle-Spaced now (transients p meta draw) l v =
      unfold settle_transient in same-Spaced l _ refl refl v
  settle-Spaced now (quota_blocks p code detail meta) l v =
      unfold settle_quota_blocked in same-Spaced l _ refl refl v
  settle-Spaced now (releases p outcome meta) l v =
      unfold settle_release in same-Spaced l _ refl refl v
  settle-Spaced now publishes_heartbeat l v = ground (arith, v.latest, v.spaced)
  settle-Spaced now resumes l v = ground (arith, v.latest, v.spaced)

  run-Spaced : (cs : List (ℕ × Call)) → Holds o send_message (Spaced o) (run o send_message none cs)
  run-Spaced cs = run-Holds o send_message (Spaced o) acquire-Spaced_new settle-Spaced cs

-- A run of `n` spaced instants takes `n - 1` intervals at least.
spaced_rate : (k t : ℕ) (ts : List ℕ) → IsSpaced k (t ∷ ts) → get_or_last t ts + length ts * k ≤ t
spaced_rate k t [] s = omega arith
spaced_rate k t (u ∷ ts) s = grind (arith, spaced_rate k u ts s.1, s.0)

-- The attempts that a row records.
abbrev pub admissions : Option Lane → List ℕ
admissions none = []
admissions (some l) = attempt_times l.events

-- Whatever calls are made on the Send Message lane of a shop, at whatever times the clock shows, each
-- admission is later than the one before it by the configured interval, and by a second at least.
pub send-IsSpaced :
    (o : Options) (cs : List (ℕ × Call))
    → IsSpaced (send_interval o) (admissions (run o send_message none cs))
      × (1000 ≤ send_interval o)
send-IsSpaced o cs = (go (run o send_message none cs) (run-Spaced o cs), omega arith)
  where
    go :
        (stored : Option Lane)
        → Holds o send_message (Spaced o) stored
        → IsSpaced (send_interval o) (admissions stored)
    go none h = tt
    go (some l) h = h.spaced

-- So from one admission to another that comes `n` admissions later there pass `n` intervals at least.
pub send_rate :
    (o : Options) (cs : List (ℕ × Call)) (t : ℕ) (ts : List ℕ)
    → admissions (run o send_message none cs) ≡ t ∷ ts
    → get_or_last t ts + length ts * send_interval o ≤ t
send_rate o cs t ts e = spaced_rate (send_interval o) t ts (rw e at (send-IsSpaced o cs).0)
