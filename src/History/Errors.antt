-- ===== src/History/Errors.antt =====
-- handleError with isCursorInvalid and publicErrorCode (apps/api/src/history/history-processor.ts).
use tiktok_outreach.Prelude.{
  ℕ, suc, ◌+◌, ◌-◌, ◌*◌, ◌^◌, min, max, Bool, true, false, not, ◌&&◌, ◌||◌, ◌∷◌, Option, none, some,
  ◌==◌, if◌then◌else◌, is_some, or_else, some_and, truthy,
}
use tiktok_outreach.Prelude.Tables.{delete_where}
use tiktok_outreach.History.Rows.{
  SyncState, SyncMode, PassKind, SyncPhase, ApiErrorKind, ReadOperation, PublicCode, ErrorCategory,
  ApiError, Failure, Job, HistoryEvent, History, is_held_by, list_cursor,
}
use tiktok_outreach.History.Pages.{released}

abbrev pub temporary_base_ms : ℕ
temporary_base_ms = 30000

abbrev pub temporary_max_ms : ℕ
temporary_max_ms = 30 * 60000

-- A number that a condition takes as true.
abbrev pub nonzero : Option ℕ → Option ℕ
nonzero none = none
nonzero (some n) = if n == 0 then none else some n

abbrev pub code_or_status : Option ℕ → Option ℕ → ApiErrorKind → PublicCode
code_or_status (some n) status kind = PublicCode.code n
code_or_status none (some n) kind = PublicCode.http n
code_or_status none none kind = PublicCode.of_kind kind

abbrev pub public_error_code : ApiError → PublicCode
public_error_code e = code_or_status (nonzero e.provider_code) (nonzero e.http_status) e.kind

abbrev pub is_list_conversations : ReadOperation → Bool
is_list_conversations ReadOperation.list_conversations = true
is_list_conversations _ = false

abbrev pub is_provider_kind : ApiErrorKind → Bool
is_provider_kind ApiErrorKind.provider = true
is_provider_kind _ = false

abbrev pub is_temporary_kind : ApiErrorKind → Bool
is_temporary_kind ApiErrorKind.rate_limit = true
is_temporary_kind ApiErrorKind.temporary = true
is_temporary_kind _ = false

abbrev pub is_cursor_invalid : Job → ApiError → Bool
is_cursor_invalid j e =
    is_list_conversations e.operation
    && is_some (truthy (list_cursor j))
    && is_provider_kind e.kind
    && (some_and e.http_status (λ n. n == 400)
        || some_and e.provider_code (λ n. n == 100004 || n == 11012003))

abbrev pub first_pass : SyncMode → PassKind
first_pass SyncMode.initial_backfill = PassKind.backfill
first_pass SyncMode.incremental = PassKind.incremental

-- The three branches; each updates the row that the worker has just found to be its own.
unfoldable pub recover_cursor : ℕ → ApiError → History → History
recover_cursor now e h = record h {
  works = delete_where (λ w. w.page_sequence == h.job.page_sequence) h.works;
  job = record (released (now + 30000) h.job) {
    state = SyncState.queued;
    pass_kind = first_pass h.job.mode;
    phase = SyncPhase.list;
    backfill_page_token = none;
    incremental_page_token = none;
    pending_next_page_token = none;
    pending_has_more = none;
    cursor_recovery_count = suc h.job.cursor_recovery_count;
    page_sequence = suc h.job.page_sequence;
    last_provider_code = some (public_error_code e);
    last_error_category = some ErrorCategory.cursor_invalid_recovering;
    total_provider_requests = suc h.job.total_provider_requests;
  };
  audit = HistoryEvent.history_cursor_recovery_started (suc h.job.cursor_recovery_count) ∷ h.audit;
}

-- The count of failures in a row, and the delay that it gives.
abbrev pub failures_after : ApiError → Job → ℕ
failures_after e j = j.consecutive_failure_count + (if e.locally_blocked then 0 else 1)

abbrev pub exponential_ms : ℕ → ℕ
exponential_ms count = min temporary_max_ms (temporary_base_ms * 2 ^ min (count - 1) 20)

abbrev pub next_attempt : ℕ → ApiError → Job → ℕ
next_attempt now e j =
    or_else e.next_permitted_at
      (now + max (or_else e.retry_after_ms 0) (exponential_ms (failures_after e j)))

unfoldable pub back_off : ℕ → ApiError → History → History
back_off now e h = record h {
  job = record (released (next_attempt now e h.job) h.job) {
    state = SyncState.backing_off;
    consecutive_failure_count = failures_after e h.job;
    total_provider_requests = h.job.total_provider_requests + (if e.locally_blocked then 0 else 1);
    last_provider_code = some (public_error_code e);
    last_error_category = some (ErrorCategory.of_error e.kind);
  };
  audit = HistoryEvent.history_backoff_entered ∷ h.audit;
}

abbrev pub category_of : Failure → ErrorCategory
category_of (Failure.api e) = ErrorCategory.of_error e.kind
category_of Failure.other = ErrorCategory.history_worker_failure

abbrev pub code_of : Failure → Option PublicCode
code_of (Failure.api e) = some (public_error_code e)
code_of Failure.other = none

abbrev pub is_physical : Failure → Bool
is_physical (Failure.api e) =
    not e.locally_blocked && (is_some e.http_status || is_some e.request_id)
is_physical Failure.other = false

unfoldable pub fail_job : Failure → History → History
fail_job f h = record h {
  job = record h.job {
    state = SyncState.failed;
    last_error_category = some (category_of f);
    last_provider_code = code_of f;
    total_provider_requests = h.job.total_provider_requests + (if is_physical f then 1 else 0);
    next_attempt_at = none;
    lease_owner = none;
    lease_expires_at = none;
  };
  audit = HistoryEvent.history_sync_failed ∷ h.audit;
}

unfoldable pub handle_failure : ℕ → Failure → History → History
unfolding recover_cursor back_off fail_job
handle_failure now (Failure.api e) h =
    if is_cursor_invalid h.job e
    then recover_cursor now e h
    else if is_temporary_kind e.kind
    then back_off now e h
    else fail_job (Failure.api e) h
handle_failure now Failure.other h = fail_job Failure.other h

unfoldable pub handle_error : ℕ → ℕ → Failure → History → History
unfolding handle_failure
handle_error now owner f h = if is_held_by owner h.job then handle_failure now f h else h
