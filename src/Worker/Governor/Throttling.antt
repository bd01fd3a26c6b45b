-- ===== src/Worker/Governor/Throttling.antt =====
-- When a lane admits a call, and how long it refuses after a throttle.
use tiktok_outreach.Prelude.{
  ℕ, eq_iff, ◌∙◌, ◌^◌, Option-cases, ◌+◌, ◌-◌, ◌*◌, ◌≤◌, ◌<◌, min, ◌≡◌, ◌↔◌, refl, inl, inr, String,
  true, false, Bool-cases, List, [], ◌∷◌, Option, none, some, arith, length, All, or_else,
}
use tiktok_outreach.Worker.Backoff.{RetryAfter, bounded_retry_after}
use tiktok_outreach.Worker.Backoff.Bounds.{backoff_least}
use tiktok_outreach.Worker.Governor.Lane.{
  Operation, create_conversation, send_message, is_quota_blocked, ResponseMeta, accepted, Permit,
  Lane, Options, IsConfigured, is_permit, send_interval, technical_max_for, drop_expired,
  drop_permit,
}
use tiktok_outreach.Worker.Governor.Acquire.{
  is_acquired, refresh, expire_permits, next_send_at, is_later, guarded, acquire,
}
use tiktok_outreach.Worker.Governor.Settle.{
  later_of, throttle_delay, transient_delay, settle_healthy, settle_throttle, settle_transient,
  settle_release,
}
use tiktok_outreach.Worker.Governor.Calls.{
  Call, acquires, healthies, throttles, transients, quota_blocks, releases, publishes_heartbeat,
  resumes, clamp_send, settle, run,
}

-- What a permit needs: no quota block, no wait that lasts, for Send Message the interval since the
-- last admission, and fewer live permits than the concurrency allows.
pub record IsAdmissible (o : Options) (op : Operation) (now : ℕ) (l : Lane) : Type 0 where
  pub unblocked : is_quota_blocked l.state ≡ false
  pub waited : (t : ℕ) → l.next_permitted_at ≡ some t → t ≤ now
  pub rested : (t : ℕ) → op ≡ send_message → l.last_request_at ≡ some t → t + send_interval o ≤ now
  pub free :
      length (drop_expired now l.permits) < min l.effective_concurrency (technical_max_for o op)

not_later : (o : Option ℕ) (now : ℕ) → ((t : ℕ) → o ≡ some t → t ≤ now) → is_later o now ≡ false
not_later none now h = refl
not_later (some t) now h = ground (arith, h t refl)

next_send_at-le :
    (o : Options) (op : Operation) (now : ℕ) (l : Lane)
    → ((t : ℕ) → op ≡ send_message → l.last_request_at ≡ some t → t + send_interval o ≤ now)
    → (t : ℕ) → next_send_at o op l ≡ some t
    → t ≤ now
next_send_at-le o create_conversation now l h t e = cc
next_send_at-le o send_message now l h t e = elim (Option-cases l.last_request_at) [
  | inl n ↦ absurd (ground arith)
  | inr (u, n) ↦ ground (arith, h u refl n)
]

acquire_admits :
    (o : Options) (op : Operation) (owner : String) (now : ℕ) (l : Lane)
    → IsAdmissible o op now l
    → is_acquired (acquire o op owner now (some l)).1 ≡ true
unfolding acquire
acquire_admits o op owner now l a = ground (
  arith,
  not_later l.next_permitted_at now a.waited,
  not_later (next_send_at o op l) now (next_send_at-le o op now l a.rested),
)

-- `acquire` admits a call on an existing row exactly where these four conditions hold: the lane is not
-- blocked by a quota, its wait is over, for Send Message the interval since the last admission has
-- passed, and fewer permits are live than the concurrency and the limit allow.
pub acquire-is_acquired :
    (o : Options) (op : Operation) (owner : String) (now : ℕ) (l : Lane)
    → (is_acquired (acquire o op owner now (some l)).1 ≡ true) ↔ IsAdmissible o op now l
unfolding acquire
acquire-is_acquired o create_conversation owner now l = (
  λ h. record {
    unblocked = ground arith;
    waited = λ t e. ground arith;
    rested = λ t e r. absurd (ground arith);
    free = ground arith;
  },
  acquire_admits o create_conversation owner now l,
)
acquire-is_acquired o send_message owner now l = (
  λ h. record {
    unblocked = ground arith;
    waited = λ t e. ground arith;
    rested = λ t e r. ground arith;
    free = ground arith;
  },
  acquire_admits o send_message owner now l,
)

-- The lane waits until `at` or later.
abbrev pub WaitsUntil : ℕ → Lane → Type 0
WaitsUntil at l = (t : ℕ) × (l.next_permitted_at ≡ some t) × (at ≤ t)

-- The calls that end no wait, and the permits asked for before it is over.
abbrev pub IsPatient : ℕ → ℕ × Call → Type 0
IsPatient at (now, acquires owner) = now < at
IsPatient at (now, throttles p meta r draw) = Unit
IsPatient at (now, transients p meta draw) = Unit
IsPatient at (now, releases p outcome meta) = Unit
IsPatient at (now, publishes_heartbeat) = Unit
IsPatient at (now, healthies p ok meta) = ⊥
IsPatient at (now, quota_blocks p code detail meta) = ⊥
IsPatient at (now, resumes) = ⊥

later_of-le : (o : Option ℕ) (t c : ℕ) → o ≡ some t → t ≤ later_of o c
later_of-le o t c e = ground arith

waiting_refuses :
    (o : Options) (op : Operation) (owner : String) (at now : ℕ) (l : Lane)
    → WaitsUntil at l
    → now < at
    → is_acquired (acquire o op owner now (some l)).1 ≡ false
waiting_refuses o op owner at now l (t, e, h) early =
    elim (Bool-cases (is_acquired (acquire o op owner now (some l)).1)) [
      | inl g ↦ absurd (omega (arith, ((acquire-is_acquired o op owner now l).0 g).waited t e))
      | inr r ↦ r
    ]

module _ (o : Options) (op : Operation) (at : ℕ) where
  refresh-next : (l : Lane) → (refresh o op (some l)).next_permitted_at ≡ l.next_permitted_at
  unfolding refresh
  refresh-next l = ground arith

  guarded-WaitsUntil :
      (owner : String) (now : ℕ) (l : Lane)
      → WaitsUntil at l
      → now < at
      → WaitsUntil at (guarded o op owner now l).0
  unfolding guarded
  guarded-WaitsUntil owner now l (t, e, h) early = (t, ground arith, h)

  acquire-WaitsUntil :
      (owner : String) (now : ℕ) (l : Lane)
      → WaitsUntil at l
      → now < at
      → WaitsUntil at (acquire o op owner now (some l)).0
  unfolding acquire
  acquire-WaitsUntil owner now l (t, e, h) early =
      guarded-WaitsUntil owner now (expire_permits now (refresh o op (some l)))
        (t, refresh-next l ∙ e, h) early

  clamp_send-next :
      (q : Operation) (l : Lane) → (clamp_send q l).next_permitted_at ≡ l.next_permitted_at
  unfolding clamp_send
  clamp_send-next create_conversation l = refl
  clamp_send-next send_message l = ground arith

  settle-WaitsUntil :
      (now : ℕ) (c : Call) (l : Lane)
      → IsPatient at (now, c)
      → WaitsUntil at l
      → WaitsUntil at (settle o op now c l)
  unfolding settle
  settle-WaitsUntil now (acquires owner) l p w = acquire-WaitsUntil owner now l w p
  settle-WaitsUntil now (throttles p meta r draw) l q (t, e, h) =
      unfold settle_throttle in
      (
        later_of l.next_permitted_at (now + throttle_delay r draw l),
        refl,
        omega (arith, later_of-le l.next_permitted_at t (now + throttle_delay r draw l) e),
      )
  settle-WaitsUntil now (transients p meta draw) l q (t, e, h) =
      unfold settle_transient in
      (
        later_of l.next_permitted_at (now + transient_delay draw l),
        refl,
        omega (arith, later_of-le l.next_permitted_at t (now + transient_delay draw l) e),
      )
  settle-WaitsUntil now (releases p outcome meta) l q w = unfold settle_release in w
  settle-WaitsUntil now publishes_heartbeat l q (t, e, h) = (t, clamp_send-next op l ∙ e, h)
  settle-WaitsUntil now (healthies p ok meta) l q w = absurd q
  settle-WaitsUntil now (quota_blocks p code detail meta) l q w = absurd q
  settle-WaitsUntil now resumes l q w = absurd q

  run-WaitsUntil :
      (l : Lane) (cs : List (ℕ × Call))
      → All (IsPatient at) cs
      → WaitsUntil at l
      → (m : Lane) × (run o op (some l) cs ≡ some m) × WaitsUntil at m
  unfolding run
  run-WaitsUntil l [] p w = (l, refl, w)
  run-WaitsUntil l ((now, c) ∷ cs) p w =
      run-WaitsUntil (settle o op now c l) cs p.1 (settle-WaitsUntil now c l p.0 w)

-- After a throttle the lane refuses every call for the delay that the throttle computed, which is at
-- least what the provider asked for (up to 24 hours), and at least 1, 2, 4, … seconds by the number of
-- throttles in a row, up to a minute. That holds after any further calls, made by any number of
-- workers, that are requests for permits before the delay is over, throttles, transient failures,
-- releases and heartbeats; healthy answers, quota blocks and an operator's resume are excluded.
pub throttle_respected :
    (o : Options) (op : Operation) (p : Permit) (meta : ResponseMeta) (r : RetryAfter)
    (draw now : ℕ) (l : Lane) (cs : List (ℕ × Call)) (owner : String) (later : ℕ)
    → All (IsPatient (now + throttle_delay r draw l)) cs
    → later < now + throttle_delay r draw l
    → (or_else (bounded_retry_after r) 0 ≤ throttle_delay r draw l)
      × (min 60000 (1000 * 2 ^ min 20 l.consecutive_throttle_count) ≤ throttle_delay r draw l)
      × ((m : Lane) × (run o op (some (settle_throttle p meta r draw now l)) cs ≡ some m)
          × (is_acquired (acquire o op owner later (some m)).1 ≡ false))
unfolding throttle_delay
throttle_respected o op p meta r draw now l cs owner later patient early =
    let z : l.consecutive_throttle_count + 1 - 1 ≡ l.consecutive_throttle_count = omega arith in
    let delay = throttle_delay r draw l in
    let b = backoff_least 1000 60000 (l.consecutive_throttle_count + 1) r draw (omega arith) in
    let w : WaitsUntil (now + delay) (settle_throttle p meta r draw now l) =
      unfold settle_throttle in (later_of l.next_permitted_at (now + delay), refl, ground arith) in
    let (m, e, u) = run-WaitsUntil o op (now + delay) _ cs patient w in
    (b.1, rw z at b.0, (m, e, waiting_refuses o op owner (now + delay) later m u early))

drop_permit_last :
    (p : Permit) → (is_permit p.id p.owner p ≡ true) × (drop_permit p.id p.owner (p ∷ []) ≡ [])
unfolding drop_permit
drop_permit_last p = ground (arith, eq_iff p.owner p.owner)

drop_both : (p q : Permit) → drop_permit q.id q.owner (drop_permit p.id p.owner (p ∷ q ∷ [])) ≡ []
unfolding drop_permit
drop_both p q = ground (arith, drop_permit_last p, drop_permit_last q)

settle_healthy-pos :
    (q : Permit) (n : ResponseMeta) (answered : ℕ) (l : Lane)
    → 1 ≤ (settle_healthy q accepted n answered l).effective_concurrency
unfolding settle_healthy
settle_healthy-pos q n answered l = ground arith

free_of_empty :
    (now : ℕ) (l : Lane) (o : Options)
    → l.permits ≡ []
    → 1 ≤ l.effective_concurrency
    → IsConfigured o
    → length (drop_expired now l.permits)
      < min l.effective_concurrency (technical_max_for o create_conversation)
unfolding drop_expired
free_of_empty now l o e h c = rw e (omega (arith, c.positive, c.ordered))

-- The converse of the exclusion above: two calls are in flight on a Create Conversation lane. One is
-- throttled, whatever wait the provider asks for; then the other gets a healthy answer. The wait is
-- gone: `nextPermittedAt` and `retryAfterMs` are null, and a permit is granted at any later instant.
pub healthy_forgets_throttle :
    (o : Options) (l : Lane) (p q : Permit) (m n : ResponseMeta) (r : RetryAfter)
    (draw now answered later : ℕ) (owner : String)
    → IsConfigured o
    → l.permits ≡ p ∷ q ∷ []
    → let after = settle_healthy q accepted n answered (settle_throttle p m r draw now l) in
      (after.next_permitted_at ≡ none)
      × (after.retry_after_ms ≡ none)
      × (is_acquired (acquire o create_conversation owner later (some after)).1 ≡ true)
healthy_forgets_throttle o l p q m n r draw now answered later owner configured held =
    let mid = settle_throttle p m r draw now l in
    let after = settle_healthy q accepted n answered mid in
    let none_left : after.permits ≡ [] =
      unfold settle_throttle settle_healthy in rw held (drop_both p q) in
    let some_concurrency : 1 ≤ after.effective_concurrency = settle_healthy-pos q n answered mid in
    (
      unfold settle_healthy in refl,
      unfold settle_healthy in refl,
      acquire_admits o create_conversation owner later after (record {
        unblocked = unfold settle_throttle settle_healthy in ground arith;
        waited = λ t e. (unfold settle_healthy in ground arith);
        rested = λ t e. absurd (ground arith);
        free = free_of_empty later after _ none_left some_concurrency configured;
      }),
    )
