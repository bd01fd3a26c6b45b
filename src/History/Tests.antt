-- ===== src/History/Tests.antt =====
-- A shop's history of one page of two conversations.
use tiktok_outreach.Prelude.{
  ℕ, ◌≡◌, refl, String, true, false, List, [], ◌∷◌, Option, none, some, map,
}
use tiktok_outreach.Prelude.Sorting.{sort}
use tiktok_outreach.History.Rows.{
  SyncState, SyncMode, PassKind, SyncPhase, ApiErrorKind, ReadOperation, ApiError, Failure,
  ApiAnswer, Item, ConversationPage, Direction, Message, MessagePage, Job, History, Settings,
}
use tiktok_outreach.History.Pages.{fetch_conversation_page, new_work}
use tiktok_outreach.History.Errors.{handle_error}
use tiktok_outreach.History.Runs.{Answers, turn, process_next, fetch_message_page}
use tiktok_outreach.History.Invariant.{run_all}
use tiktok_outreach.History.Reading.{Answering}
use tiktok_outreach.History.Staging.{StagesPage, fetch_conversation_page-StagesPage}
use tiktok_outreach.History.Imports.{Imports, import_messages-Imports}
use tiktok_outreach.History.Lease.{IsFreed, turn_frees}
use tiktok_outreach.History.Lost.{LeavesJob, LeavesJob-lost}
use tiktok_outreach.History.Delays.{BacksOff, handle_error-BacksOff}
use tiktok_outreach.History.Counting.{Uncounted, fetch_message_page-Uncounted}

abbrev settings : Settings
settings = record {
  success_spacing_ms = 1000;
  incremental_interval_ms = 21600000;
  incremental_pages = 3;
  head_every_backfill_pages = 5;
  lease_ms = 120000;
}

abbrev job : Job
job = record {
  id = 1;
  state = SyncState.queued;
  mode = SyncMode.initial_backfill;
  pass_kind = PassKind.backfill;
  phase = SyncPhase.list;
  page_sequence = 0;
  pages_processed = 0;
  conversations_discovered = 0;
  conversations_imported = 0;
  conversations_completed = 0;
  messages_imported = 0;
  total_provider_requests = 0;
  consecutive_failure_count = 0;
  cursor_recovery_count = 0;
  backfill_pages_since_head = 0;
  incremental_page_index = 0;
  backfill_page_token = none;
  incremental_page_token = none;
  pending_next_page_token = none;
  pending_has_more = none;
  last_provider_code = none;
  last_error_category = none;
  last_successful_provider_request_at = none;
  next_attempt_at = none;
  lease_owner = none;
  lease_expires_at = none;
  started_at = none;
  initial_completed_at = none;
  completed_at = none;
  created_at = 0;
}

abbrev shop : History
shop = record { job = job; works = []; conversations = []; messages = []; runs = []; audit = [] }

abbrev item : ℕ → Item
item n = record {
  id = n;
  creator_im_id = "im";
  username = none;
  avatar_url = none;
  unread_count = none;
}

abbrev page : ConversationPage
page = record { items = item 5 ∷ item 6 ∷ []; next_page_token = none; has_more = false }

abbrev hello : Message
hello = record { id = 70; direction = Direction.outbound; content = "halo"; created_at = 9 }

abbrev message_page : MessagePage
message_page = record { items = hello ∷ []; next_page_token = none; has_more = false }

abbrev throttled : ApiError
throttled = record {
  kind = ApiErrorKind.rate_limit;
  operation = ReadOperation.list_messages;
  http_status = some 429;
  provider_code = none;
  request_id = none;
  retry_after_ms = some 45000;
  next_permitted_at = none;
  locally_blocked = false;
}

abbrev answers : ℕ → Answers
answers now = record {
  no_adapter = none;
  conversations = λ token. ApiAnswer.answered page;
  messages = λ conversation token. ApiAnswer.answered message_page;
  creator_of = λ i. ApiAnswer.answered 3;
  not_rebuilt = λ creator. none;
  claimed_at = now;
  synced_at = now;
  answered_at = now;
  failed_at = now;
}

abbrev refused : Answers
refused = record (answers 2000) {
  messages = λ conversation token. ApiAnswer.thrown (Failure.api throttled);
}

-- Four runs: the list, two conversations, and the end of the page.
four_runs :
    map
      (λ h. h.job.state)
      (run_all settings
        ((answers 1000, 7) ∷ (answers 3000, 8) ∷ (answers 5000, 9) ∷ (answers 7000, 4) ∷ [])
        (shop ∷ []))
    ≡ SyncState.complete ∷ []
unfolding process_next sort
four_runs = refl

-- The messages of a conversation take two pages.
abbrev message_pages : Option String → MessagePage
message_pages none = record message_page { next_page_token = some "b"; has_more = true }
message_pages (some token) = record message_page { items = record hello { id = 71 } ∷ [] }

abbrev paged : ℕ → Answers
paged now = record (answers now) {
  messages = λ conversation token. ApiAnswer.answered (message_pages token);
}

abbrev provider : Answering
provider conversation token p = message_pages token ≡ p

abbrev page_of : ApiAnswer MessagePage → MessagePage
page_of (ApiAnswer.answered p) = p
page_of (ApiAnswer.thrown f) = message_page

abbrev paged_runs : List (Answers × ℕ)
paged_runs =
    (paged 1000, 7)
    ∷ (paged 3000, 8)
    ∷ (refused, 8)
    ∷ (paged 50000, 9)
    ∷ (paged 52000, 9)
    ∷ (paged 54000, 9)
    ∷ (paged 56000, 9)
    ∷ []

-- The history is complete after these runs, and the page is left.
paged_complete :
    map {B = SyncState × ℕ}
      (λ h. (h.job.state, h.job.page_sequence))
      (run_all settings paged_runs (shop ∷ []))
    ≡ (SyncState.complete, 1) ∷ []
unfolding process_next sort
paged_complete = refl

turn_frees_example : IsFreed (turn settings (answers 1000) 7 job shop)
turn_frees_example = turn_frees settings (answers 1000) 7 job shop refl

abbrev leased : History
leased = record shop {
  job = record job {
    state = SyncState.running;
    lease_owner = some 7;
    lease_expires_at = some 121000;
  };
}

LeavesJob-lost_example : LeavesJob settings 2000 8 job leased
LeavesJob-lost_example = LeavesJob-lost settings 2000 8 job leased refl

fetch_conversation_page-StagesPage_example :
    StagesPage
      (item 5 ∷ item 6 ∷ [])
      0
      leased
      (fetch_conversation_page settings 1000 job 7 page leased)
fetch_conversation_page-StagesPage_example =
    fetch_conversation_page-StagesPage settings 1000 job 7 page leased refl

handle_error-BacksOff_example :
    BacksOff 2000 throttled leased (handle_error 2000 7 (Failure.api throttled) leased)
handle_error-BacksOff_example = handle_error-BacksOff 2000 7 throttled leased refl refl

import_messages-Imports_example : Imports 5 (hello ∷ hello ∷ []) []
import_messages-Imports_example = import_messages-Imports 5 (hello ∷ hello ∷ []) [] tt

fetch_message_page-Uncounted_example :
    Uncounted settings
      (new_work 0 (item 5))
      leased
      (fetch_message_page settings refused 7 (new_work 0 (item 5)) leased).1
fetch_message_page-Uncounted_example =
    fetch_message_page-Uncounted settings refused 7 (new_work 0 (item 5)) leased 3
      (Failure.api throttled) refl refl
