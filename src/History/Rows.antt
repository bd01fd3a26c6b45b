-- ===== src/History/Rows.antt =====
-- The rows of a shop's history synchronisation (packages/db/prisma/schema.prisma), and what the
-- adapter answers and throws (packages/contracts, packages/tiktok-adapter/src/real-read-only.ts).
use tiktok_outreach.Prelude.{ℕ, String, Bool, true, false, ◌&&◌, List, Option, ◌==◌, some_and}
use tiktok_outreach.Prelude.Tables.{when}

pub data SyncState : Type 0 where
  queued running backing_off paused complete failed : SyncState

pub data SyncMode : Type 0 where
  initial_backfill incremental : SyncMode

pub data PassKind : Type 0 where
  backfill head incremental : PassKind

pub data SyncPhase : Type 0 where
  list messages : SyncPhase

pub data WorkState : Type 0 where
  queued running complete : WorkState

pub data ApiErrorKind : Type 0 where
  auth_expired permission shop_authorization invalid_shop_cipher rate_limit temporary : ApiErrorKind
  malformed_response unsupported_identifier revoked provider : ApiErrorKind

pub data ReadOperation : Type 0 where
  list_conversations list_messages get_authorized_shops search_creators : ReadOperation

-- What publicErrorCode makes of an error: the provider's code, `HTTP_` and the status, or the kind.
pub data PublicCode : Type 0 where
  code http : ℕ → PublicCode
  of_kind : ApiErrorKind → PublicCode

pub data ErrorCategory : Type 0 where
  of_error : ApiErrorKind → ErrorCategory
  cursor_invalid_recovering history_worker_failure : ErrorCategory

-- TikTokApiError.
pub record ApiError : Type 0 where
  pub kind : ApiErrorKind
  pub operation : ReadOperation
  pub http_status : Option ℕ
  pub provider_code : Option ℕ
  pub request_id : Option String
  pub retry_after_ms : Option ℕ
  pub next_permitted_at : Option ℕ
  pub locally_blocked : Bool

pub data Failure : Type 0 where
  api : ApiError → Failure
  other : Failure

pub data ApiAnswer {ℓ} (A : Type ℓ) : Type ℓ where
  answered : A → ApiAnswer A
  thrown : Failure → ApiAnswer A

-- ProviderConversation and ProviderMessage, and the pages of them.
pub record Item : Type 0 where
  pub id : ℕ
  pub creator_im_id : String
  pub username : Option String
  pub avatar_url : Option String
  pub unread_count : Option ℕ

pub record ConversationPage : Type 0 where
  pub items : List Item
  pub next_page_token : Option String
  pub has_more : Bool

pub data Direction : Type 0 where
  outbound inbound : Direction

pub record Message : Type 0 where
  pub id : ℕ
  pub direction : Direction
  pub content : String
  pub created_at : ℕ

pub record MessagePage : Type 0 where
  pub items : List Message
  pub next_page_token : Option String
  pub has_more : Bool

-- HistorySyncJob. A token is a cursor of the provider.
pub record Job : Type 0 where
  pub id : ℕ
  pub state : SyncState
  pub mode : SyncMode
  pub pass_kind : PassKind
  pub phase : SyncPhase
  pub page_sequence : ℕ
  pub pages_processed : ℕ
  pub conversations_discovered : ℕ
  pub conversations_imported : ℕ
  pub conversations_completed : ℕ
  pub messages_imported : ℕ
  pub total_provider_requests : ℕ
  pub consecutive_failure_count : ℕ
  pub cursor_recovery_count : ℕ
  pub backfill_pages_since_head : ℕ
  pub incremental_page_index : ℕ
  pub backfill_page_token : Option String
  pub incremental_page_token : Option String
  pub pending_next_page_token : Option String
  pub pending_has_more : Option Bool
  pub last_provider_code : Option PublicCode
  pub last_error_category : Option ErrorCategory
  pub last_successful_provider_request_at : Option ℕ
  pub next_attempt_at : Option ℕ
  pub lease_owner : Option ℕ
  pub lease_expires_at : Option ℕ
  pub started_at : Option ℕ
  pub initial_completed_at : Option ℕ
  pub completed_at : Option ℕ
  pub created_at : ℕ

-- HistorySyncConversationWork.
pub record Work : Type 0 where
  pub page_sequence : ℕ
  pub conversation_id : ℕ
  pub creator_im_id : String
  pub username : Option String
  pub avatar_url : Option String
  pub unread_count : ℕ
  pub state : WorkState
  pub message_page_token : Option String
  pub messages_imported : ℕ
  pub provider_requests : ℕ
  pub completed_at : Option ℕ

pub record ConversationRow : Type 0 where
  pub id : ℕ
  pub creator_id : ℕ
  pub unread_count : ℕ
  pub last_synced_at : ℕ

pub record MessageRow : Type 0 where
  pub conversation_id : ℕ
  pub message : Message

pub record SyncRun : Type 0 where
  pub conversations_scanned : ℕ
  pub messages_imported : ℕ
  pub started_at : ℕ
  pub completed_at : ℕ

pub data HistoryEvent : Type 0 where
  history_backoff_exited history_backoff_entered history_sync_failed : HistoryEvent
  history_initial_backfill_complete : HistoryEvent
  history_head_reconciled history_cursor_recovery_started : ℕ → HistoryEvent
  history_provider_page_completed history_incremental_pass_complete : ℕ → HistoryEvent
  history_messages_imported : ℕ → ℕ → HistoryEvent

-- The rows of one shop: it has one job at most.
pub record History : Type 0 where
  pub job : Job
  pub works : List Work
  pub conversations : List ConversationRow
  pub messages : List MessageRow
  pub runs : List SyncRun
  pub audit : List HistoryEvent

-- The configuration and the processor's options.
pub record Settings : Type 0 where
  pub success_spacing_ms : ℕ
  pub incremental_interval_ms : ℕ
  pub incremental_pages : ℕ
  pub head_every_backfill_pages : ℕ
  pub lease_ms : ℕ

abbrev pub is_work : ℕ → ℕ → Work → Bool
is_work sequence conversation w = w.page_sequence == sequence && w.conversation_id == conversation

abbrev pub is_complete_work : Work → Bool
is_complete_work w = elim w.state [ WorkState.complete ↦ true | _ ↦ false ]

-- The `where` of an update by the worker that holds the job's lease.
abbrev pub is_held_by : ℕ → Job → Bool
is_held_by owner j = some_and j.lease_owner (λ o. o == owner)

abbrev pub update_held : ℕ → (Job → Job) → History → History
update_held owner f h = record h { job = when (is_held_by owner) f h.job }

-- What listCursor answers.
abbrev pub cursor_of : PassKind → Job → Option String
cursor_of PassKind.backfill j = j.backfill_page_token
cursor_of _ j = j.incremental_page_token

abbrev pub list_cursor : Job → Option String
list_cursor j = cursor_of j.pass_kind j
