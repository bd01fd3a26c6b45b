-- ===== src/History/Pages.antt =====
-- fetchConversationPage, ensureConversation, fetchMessagePage and advanceCompletedPage
-- (apps/api/src/history/history-processor.ts).
use tiktok_outreach.Prelude.{
  ℕ, suc, ◌+◌, ◌%◌, Bool, true, false, not, ◌&&◌, ◌||◌, List, [], ◌∷◌, ◌++◌, Option, none, some,
  ◌==◌, ltb, leb, if◌then◌else◌, is_some, or_else, truthy, any, length,
}
use tiktok_outreach.Prelude.Tables.{update_where, upsert}
use tiktok_outreach.History.Rows.{
  SyncState, SyncMode, PassKind, SyncPhase, WorkState, ApiErrorKind, ReadOperation, PublicCode,
  Failure, Item, ConversationPage, Message, MessagePage, Job, Work, ConversationRow, MessageRow,
  HistoryEvent, History, Settings, is_work, update_held,
}

-- What every branch that goes on writes: the lease ends.
abbrev pub released : ℕ → Job → Job
released next_attempt_at j = record j {
  lease_owner = none;
  lease_expires_at = none;
  next_attempt_at = some next_attempt_at;
}

-- What an answer of the provider writes.
abbrev pub served : Settings → ℕ → Job → Job
served settings now j = record (released (now + settings.success_spacing_ms) j) {
  total_provider_requests = suc j.total_provider_requests;
  last_successful_provider_request_at = some now;
  consecutive_failure_count = 0;
  last_provider_code = some (PublicCode.code 0);
  last_error_category = none;
}

abbrev pub new_work : ℕ → Item → Work
new_work sequence item = record {
  page_sequence = sequence;
  conversation_id = item.id;
  creator_im_id = item.creator_im_id;
  username = item.username;
  avatar_url = item.avatar_url;
  unread_count = or_else item.unread_count 0;
  state = WorkState.queued;
  message_page_token = none;
  messages_imported = 0;
  provider_requests = 0;
  completed_at = none;
}

unfoldable pub stage : ℕ → List Item → List Work → List Work
stage sequence [] ws = ws
stage sequence (item ∷ items) ws =
    stage sequence items (upsert (is_work sequence item.id) (λ w. w) (new_work sequence item) ws)

-- The transaction of fetchConversationPage. `snapshot` is the job as the worker has read it.
unfoldable pub fetch_conversation_page :
    Settings → ℕ → Job → ℕ → ConversationPage → History → History
unfolding stage
fetch_conversation_page settings now snapshot owner page h =
    update_held owner
      (λ j. record (served settings now j) {
        phase = SyncPhase.messages;
        pending_next_page_token = page.next_page_token;
        pending_has_more = some page.has_more;
        conversations_discovered = j.conversations_discovered + length page.items;
      })
      (record h { works = stage snapshot.page_sequence page.items h.works })

-- The item that fetchMessagePage makes of a work.
abbrev pub item_of : Work → Item
item_of w = record {
  id = w.conversation_id;
  creator_im_id = w.creator_im_id;
  username = w.username;
  avatar_url = w.avatar_url;
  unread_count = some w.unread_count;
}

abbrev pub is_conversation : ℕ → ConversationRow → Bool
is_conversation id c = c.id == id

-- Whether the conversation is new, and its row.
unfoldable pub ensure_conversation : ℕ → ℕ → Item → History → Bool × History
ensure_conversation now creator item h =
    let unread = or_else item.unread_count 0 in
    (
      not (any (is_conversation item.id) h.conversations),
      record h {
        conversations =
            upsert (is_conversation item.id)
              (λ c. record c { unread_count = unread; last_synced_at = now })
              (record {
                id = item.id;
                creator_id = creator;
                unread_count = unread;
                last_synced_at = now;
              })
              h.conversations;
      },
    )

abbrev pub is_message : ℕ → MessageRow → Bool
is_message id m = m.message.id == id

-- `createMany` of one row with skipDuplicates, and the loop; the number is of rows inserted.
unfoldable pub import_messages : ℕ → List Message → List MessageRow → ℕ × List MessageRow
import_messages conversation [] rows = (0, rows)
import_messages conversation (m ∷ ms) rows =
    let skipped = import_messages conversation ms rows in
    let (n, inserted) =
      import_messages conversation ms
        (rows ++ (record { conversation_id = conversation; message = m } ∷ [])) in
    if any (is_message m.id) rows then skipped else (suc n, inserted)

abbrev pub audit_if : Bool → HistoryEvent → History → History
audit_if b e h = if b then record h { audit = e ∷ h.audit } else h

-- The work after a page of its messages.
abbrev pub page_read : ℕ → MessagePage → ℕ → Work → Work
page_read now page imported w = record w {
  state = if page.has_more then WorkState.running else WorkState.complete;
  message_page_token = page.next_page_token;
  messages_imported = w.messages_imported + imported;
  provider_requests = suc w.provider_requests;
  completed_at = if page.has_more then none else some now;
}

-- The transaction of fetchMessagePage, less the contact state.
unfoldable pub store_message_page : Settings → ℕ → ℕ → Bool → Work → MessagePage → History → History
unfolding import_messages
store_message_page settings now owner new_conversation w page h =
    let (imported, rows) = import_messages w.conversation_id page.items h.messages in
    audit_if (ltb 0 imported) (HistoryEvent.history_messages_imported w.conversation_id imported) (
      update_held owner
        (λ j. record (served settings now j) {
          messages_imported = j.messages_imported + imported;
          conversations_imported = j.conversations_imported + (if new_conversation then 1 else 0);
          conversations_completed = j.conversations_completed + (if page.has_more then 0 else 1);
        })
        (record h {
          messages = rows;
          works =
              update_where (is_work w.page_sequence w.conversation_id) (page_read now page imported)
                h.works;
        }))

-- What each branch of advanceCompletedPage writes.
abbrev pub next_page : ℕ → Job → Job
next_page next_attempt_at j = record (released next_attempt_at j) {
  pages_processed = suc j.pages_processed;
  page_sequence = suc j.page_sequence;
  phase = SyncPhase.list;
  pending_next_page_token = none;
  pending_has_more = none;
}

abbrev pub audit_page : ℕ → History → History
audit_page n = audit_if (n == 1 || n % 10 == 0) (HistoryEvent.history_provider_page_completed n)

abbrev pub malformed : Failure
malformed = Failure.api (record {
  kind = ApiErrorKind.malformed_response;
  operation = ReadOperation.list_conversations;
  http_status = none;
  provider_code = none;
  request_id = none;
  retry_after_ms = none;
  next_permitted_at = none;
  locally_blocked = false;
})

module _ (settings : Settings) (now : ℕ) (snapshot : Job) (owner : ℕ) where
  abbrev pub has_more : Bool
  has_more = or_else snapshot.pending_has_more false

  abbrev pub after_spacing : ℕ
  after_spacing = now + settings.success_spacing_ms

  abbrev pub after_interval : ℕ
  after_interval = now + settings.incremental_interval_ms

  unfoldable pub advance_head : History → History
  advance_head h =
      audit_if true (HistoryEvent.history_head_reconciled snapshot.conversations_completed) (
        update_held owner
          (λ j. record (next_page after_spacing j) {
            pass_kind = PassKind.backfill;
            incremental_page_token = none;
            backfill_pages_since_head = 0;
          })
          h)

  abbrev pub pages_since_head : ℕ
  pages_since_head = suc snapshot.backfill_pages_since_head

  abbrev pub with_head : Bool → Job → Job
  with_head true j = record j { pass_kind = PassKind.head; incremental_page_token = none }
  with_head false j = j

  unfoldable pub continue_backfill : History → History
  continue_backfill h = audit_page (suc snapshot.pages_processed) (
      update_held owner
        (λ j.
          with_head (leb settings.head_every_backfill_pages pages_since_head)
            (record (next_page after_spacing j) {
              backfill_page_token = snapshot.pending_next_page_token;
              backfill_pages_since_head = pages_since_head;
            }))
        h)

  unfoldable pub finish_backfill : History → History
  finish_backfill h =
      let t =
        update_held owner
          (λ j. record (next_page after_interval j) {
            state = SyncState.complete;
            mode = SyncMode.incremental;
            pass_kind = PassKind.incremental;
            backfill_page_token = none;
            incremental_page_token = none;
            initial_completed_at = some (or_else snapshot.initial_completed_at now);
            completed_at = some now;
          })
          h in
      audit_if true HistoryEvent.history_initial_backfill_complete (record t {
        runs =
            record {
              conversations_scanned = snapshot.conversations_completed;
              messages_imported = snapshot.messages_imported;
              started_at = or_else snapshot.started_at now;
              completed_at = now;
            }
            ∷ t.runs;
      })

  unfoldable pub advance_backfill : History → Option Failure × History
  unfolding continue_backfill finish_backfill
  advance_backfill h =
      if has_more
      then if is_some (truthy snapshot.pending_next_page_token)
        then (none, continue_backfill h)
        else (some malformed, h)
      else (none, finish_backfill h)

  abbrev pub next_index : ℕ
  next_index = suc snapshot.incremental_page_index

  unfoldable pub advance_incremental : History → History
  advance_incremental h =
      if has_more
        && is_some (truthy snapshot.pending_next_page_token)
        && ltb next_index settings.incremental_pages
      then update_held owner
          (λ j. record (next_page after_spacing j) {
            incremental_page_token = snapshot.pending_next_page_token;
            incremental_page_index = next_index;
          })
          h
      else audit_if true (HistoryEvent.history_incremental_pass_complete next_index) (
          update_held owner
            (λ j. record (next_page after_interval j) {
              state = SyncState.complete;
              pass_kind = PassKind.incremental;
              incremental_page_token = none;
              incremental_page_index = 0;
              completed_at = some now;
            })
            h)

  unfoldable pub advance_by : PassKind → History → Option Failure × History
  unfolding advance_head advance_backfill advance_incremental
  advance_by PassKind.head h = (none, advance_head h)
  advance_by PassKind.backfill h = advance_backfill h
  advance_by PassKind.incremental h = (none, advance_incremental h)

  unfoldable pub advance_completed_page : History → Option Failure × History
  unfolding advance_by
  advance_completed_page h = advance_by snapshot.pass_kind h
