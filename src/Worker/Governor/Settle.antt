-- ===== src/Worker/Governor/Settle.antt =====
-- The methods that settle a permit: `healthy`, `throttle`, `transientFailure`, `quotaBlocked`,
-- `release`.
use tiktok_outreach.Prelude.{ℕ, ◌+◌, String, Option, none, some, leb, if◌then◌else◌, ltb}
use tiktok_outreach.Worker.Backoff.{
  RetryAfter, absent, throttle_backoff_cap_ms, transient_backoff_cap_ms, bounded_retry_after,
  exponential_backoff_with_jitter, decreased_concurrency, increased_concurrency,
}
use tiktok_outreach.Worker.Governor.Lane.{
  healthy, recovering, throttled, transient_backoff, quota_blocked, is_healthy, Outcome,
  throttled_response, transient, quota_refused, released, ResponseMeta, Permit, Lane, patch,
  record_event, drop_permit,
}

unfoldable pub settle_healthy : Permit → Outcome → ResponseMeta → ℕ → Lane → Lane
unfolding increased_concurrency
settle_healthy p outcome meta now l =
    let ramp =
      increased_concurrency l.effective_concurrency l.technical_max l.healthy_success_count in
    record l {
      permits = drop_permit p.id p.owner l.permits;
      state =
          if leb l.technical_max ramp.effective_concurrency
          then healthy
          else if is_healthy l.state
          then healthy
          else recovering;
      effective_concurrency = ramp.effective_concurrency;
      healthy_success_count = ramp.healthy_success_count;
      consecutive_throttle_count = 0;
      consecutive_failure_count = 0;
      next_permitted_at = none;
      retry_after_ms = none;
      last_success_at = some now;
      last_http_status = patch meta.http_status l.last_http_status;
      last_business_code = patch meta.business_code l.last_business_code;
      events = record_event outcome meta now l.events;
    }

-- `nextPermittedAt > candidate ? nextPermittedAt : candidate`.
abbrev pub later_of : Option ℕ → ℕ → ℕ
later_of none candidate = candidate
later_of (some t) candidate = if ltb candidate t then t else candidate

unfoldable pub throttle_delay : RetryAfter → ℕ → Lane → ℕ
throttle_delay retry_after draw l =
    exponential_backoff_with_jitter 1000 throttle_backoff_cap_ms (l.consecutive_throttle_count + 1)
      retry_after draw

-- The delay that the method returns is `throttle_delay`; the instant is the row's.
unfoldable pub settle_throttle : Permit → ResponseMeta → RetryAfter → ℕ → ℕ → Lane → Lane
unfolding throttle_delay decreased_concurrency
settle_throttle p meta retry_after draw now l = record l {
  permits = drop_permit p.id p.owner l.permits;
  state = throttled;
  effective_concurrency = decreased_concurrency l.effective_concurrency;
  healthy_success_count = 0;
  consecutive_throttle_count = l.consecutive_throttle_count + 1;
  consecutive_failure_count = 0;
  next_permitted_at = some (later_of l.next_permitted_at (now + throttle_delay retry_after draw l));
  last_throttle_at = some now;
  retry_after_ms = patch (bounded_retry_after retry_after) l.retry_after_ms;
  last_http_status = patch meta.http_status l.last_http_status;
  last_business_code = patch meta.business_code l.last_business_code;
  events = record_event throttled_response meta now l.events;
}

unfoldable pub transient_delay : ℕ → Lane → ℕ
transient_delay draw l =
    exponential_backoff_with_jitter 1000 transient_backoff_cap_ms (l.consecutive_failure_count + 1)
      absent draw

unfoldable pub settle_transient : Permit → ResponseMeta → ℕ → ℕ → Lane → Lane
unfolding transient_delay
settle_transient p meta draw now l = record l {
  permits = drop_permit p.id p.owner l.permits;
  state = transient_backoff;
  consecutive_failure_count = l.consecutive_failure_count + 1;
  next_permitted_at = some (later_of l.next_permitted_at (now + transient_delay draw l));
  last_http_status = patch meta.http_status l.last_http_status;
  last_business_code = patch meta.business_code l.last_business_code;
  events = record_event transient meta now l.events;
}

unfoldable pub settle_quota_blocked : Permit → String → String → ResponseMeta → ℕ → Lane → Lane
settle_quota_blocked p code detail meta now l = record l {
  permits = drop_permit p.id p.owner l.permits;
  state = quota_blocked;
  healthy_success_count = 0;
  next_permitted_at = none;
  quota_blocked_at = some now;
  quota_code = some code;
  quota_detail = some detail;
  last_http_status = patch meta.http_status l.last_http_status;
  last_business_code = some code;
  events =
      record_event quota_refused
        (record { http_status = meta.http_status; business_code = some code }) now l.events;
}

unfoldable pub settle_release : Permit → String → ResponseMeta → ℕ → Lane → Lane
settle_release p outcome meta now l = record l {
  permits = drop_permit p.id p.owner l.permits;
  last_http_status = patch meta.http_status l.last_http_status;
  last_business_code = patch meta.business_code l.last_business_code;
  events = record_event (released outcome) meta now l.events;
}
