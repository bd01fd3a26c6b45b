-- ===== src/Worker/Governor/Invariant.antt =====
-- The concurrency of a lane stays within its limits, and so do its outstanding permits.
use tiktok_outreach.Prelude.{
  ℕ, ◌≤◌, ◌≡◌, String, List, none, some, arith, length, not, length-select, count-le, leb,
}
use tiktok_outreach.Worker.Backoff.Bounds.{concurrency_changes}
use tiktok_outreach.Worker.Governor.Lane.{
  Operation, create_conversation, send_message, Permit, Lane, Options, IsConfigured,
  technical_max_for, new_lane, is_permit, drop_permit, drop_expired,
}
use tiktok_outreach.Worker.Governor.Acquire.{
  refresh, expire_permits, leave_backoff, admit, guarded, acquire,
}
use tiktok_outreach.Worker.Governor.Settle.{
  settle_healthy, settle_throttle, settle_transient, settle_quota_blocked, settle_release,
}
use tiktok_outreach.Worker.Governor.Calls.{
  Call, acquires, healthies, throttles, transients, quota_blocks, releases, publishes_heartbeat,
  resumes, clamp_send, settle, run, Holds, run-Holds,
}

pub record Inv (o : Options) (op : Operation) (l : Lane) : Type 0 where
  pub limit : l.technical_max ≡ technical_max_for o op
  pub positive : 1 ≤ l.effective_concurrency
  pub capped : l.effective_concurrency ≤ l.technical_max
  pub held : length l.permits ≤ l.technical_max

length-drop_permit :
    (id : ℕ) (owner : String) (ps : List Permit) → length (drop_permit id owner ps) ≤ length ps
unfolding drop_permit
length-drop_permit id owner ps = omega (
  arith,
  length-select (λ p. not (is_permit id owner p)) ps,
  count-le (λ p. not (is_permit id owner p)) ps,
)

length-drop_expired : (now : ℕ) (ps : List Permit) → length (drop_expired now ps) ≤ length ps
unfolding drop_expired
length-drop_expired now ps = omega (
  arith,
  length-select (λ p. not (leb p.expires_at now)) ps,
  count-le (λ p. not (leb p.expires_at now)) ps,
)

module _ (o : Options) (op : Operation) (configured : IsConfigured o) where
  limit-pos : 1 ≤ technical_max_for o op
  limit-pos = go op
    where
      go : (q : Operation) → 1 ≤ technical_max_for o q
      go create_conversation = omega (arith, configured.positive, configured.ordered)
      go send_message = omega arith

  new_lane-Inv : Inv o op (new_lane o op)
  unfolding new_lane
  new_lane-Inv = go op
    where
      go : (q : Operation) → Inv o q (new_lane o q)
      go create_conversation = omega (arith, configured.positive, configured.ordered)
      go send_message = omega arith

  refresh-Inv : (l : Lane) → Inv o op l → Inv o op (refresh o op (some l))
  unfolding refresh
  refresh-Inv l v = ground (arith, limit-pos)

  expire_permits-Inv : (now : ℕ) (l : Lane) → Inv o op l → Inv o op (expire_permits now l)
  unfolding expire_permits
  expire_permits-Inv now l v = ground (arith, length-drop_expired now l.permits)

  leave_backoff-Inv : (l : Lane) → Inv o op l → Inv o op (leave_backoff l)
  unfolding leave_backoff
  leave_backoff-Inv l v = ground arith

  admit-Inv :
      (owner : String) (now : ℕ) (l : Lane) → Inv o op l → Inv o op (admit o op owner now l).0
  unfolding admit
  admit-Inv owner now l v = ground arith

  guarded-Inv :
      (owner : String) (now : ℕ) (l : Lane) → Inv o op l → Inv o op (guarded o op owner now l).0
  unfolding guarded
  guarded-Inv owner now l v =
      ground (arith, admit-Inv owner now (leave_backoff l) (leave_backoff-Inv l v))

  acquire-Inv_new : (owner : String) (now : ℕ) → Inv o op (acquire o op owner now none).0
  unfolding acquire
  acquire-Inv_new owner now =
      guarded-Inv owner now _ (expire_permits-Inv now (new_lane o op) new_lane-Inv)

  acquire-Inv :
      (owner : String) (now : ℕ) (l : Lane)
      → Inv o op l
      → Inv o op (acquire o op owner now (some l)).0
  unfolding acquire
  acquire-Inv owner now l v = guarded-Inv owner now _ (expire_permits-Inv now _ (refresh-Inv l v))

  clamp_send-Inv : (q : Operation) (l : Lane) → Inv o q l → Inv o q (clamp_send q l)
  unfolding clamp_send
  clamp_send-Inv create_conversation l v = v
  clamp_send-Inv send_message l v = ground arith

  pub settle-Inv : (now : ℕ) (c : Call) (l : Lane) → Inv o op l → Inv o op (settle o op now c l)
  unfolding settle
  settle-Inv now (acquires owner) l v = acquire-Inv owner now l v
  settle-Inv now (healthies p ok meta) l v =
      unfold settle_healthy in ground (arith, length-drop_permit p.id p.owner l.permits)
  settle-Inv now (throttles p meta r draw) l v =
      unfold settle_throttle in
      ground (
        arith,
        length-drop_permit p.id p.owner l.permits,
        concurrency_changes l.effective_concurrency l.technical_max 0,
      )
  settle-Inv now (transients p meta draw) l v =
      unfold settle_transient in ground (arith, length-drop_permit p.id p.owner l.permits)
  settle-Inv now (quota_blocks p code detail meta) l v =
      unfold settle_quota_blocked in ground (arith, length-drop_permit p.id p.owner l.permits)
  settle-Inv now (releases p outcome meta) l v =
      unfold settle_release in ground (arith, length-drop_permit p.id p.owner l.permits)
  settle-Inv now publishes_heartbeat l v = clamp_send-Inv op l v
  settle-Inv now resumes l v = ground (arith, limit-pos)

  -- Whatever calls are made on a lane, at whatever times, from the row's creation on: its limit is
  -- that of the operation (one for Send Message), the effective concurrency lies between one and the
  -- limit, and there are at most as many permits as the limit. The options are as the constructor and
  -- the configuration require them.
  pub run-Inv : (cs : List (ℕ × Call)) → Holds o op (Inv o op) (run o op none cs)
  run-Inv cs = run-Holds o op (Inv o op) acquire-Inv_new settle-Inv cs
