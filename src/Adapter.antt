-- ===== src/Adapter.antt =====
-- RealTikTokOutboundAdapter (packages/tiktok-adapter/src/real-outbound.ts): what it makes of the
-- provider's responses.
pub mod Ambiguity
mod Tests
use tiktok_outreach.Prelude.{
  ℕ, String, str_eq, Bool, true, false, ◌&&◌, ◌||◌, List, [], ◌∷◌, Option, none, some,
  if◌then◌else◌, or_else, some_and, is_empty, find, any, ◌==◌, leb, ltb,
}
use tiktok_outreach.Worker.Backoff.{RetryAfter}
use tiktok_outreach.Worker.Governor.{Operation, create_conversation, send_message}
use tiktok_outreach.Worker.Dispatch.Send.{ErrorKind, ProviderError, Conversed, Sent}

-- A value of JSON; a number is the text that String gives of it, and an object's fields are in order.
mutual
  pub data Json : Type 0 where
    null : Json
    flag : Bool → Json
    number text : String → Json
    array : Items → Json
    object : Fields → Json

  pub data Items : Type 0 where
    no_items : Items
    item : Json → Items → Items

  pub data Fields : Type 0 where
    no_fields : Fields
    entry : String → Json → Fields → Fields

abbrev pub field : String → Fields → Option Json
field name no_fields = none
field name (entry k v fields) =
    let rest = field name fields in if str_eq k name then some v else rest

abbrev pub as_object : Option Json → Option Fields
as_object (some (Json.object fields)) = some fields
as_object _ = none

abbrev pub as_string : Option Json → Option String
as_string (some (Json.text s)) = if is_empty s then none else some s
as_string _ = none

abbrev pub as_number : Option Json → Option String
as_number (some (Json.number n)) = some n
as_number _ = none

abbrev pub is_true : Option Json → Bool
is_true (some (Json.flag b)) = b
is_true _ = false

-- A response of the provider: its headers as the adapter reads them, and its body, unless `json`
-- throws.
pub record Response : Type 0 where
  pub status : ℕ
  pub request_id : Option String
  pub retry_after : RetryAfter
  pub body : Option Json

-- How a request ends before its response is read: the cipher is not found, or `fetch` or the access
-- token throws.
pub data Attempted : Type 0 where
  no_cipher no_response : Attempted
  responded : Response → Attempted

-- What `request` answers or throws: the fields of its object, with the status that it adds to them.
pub data Requested : Type 0 where
  replied : Fields → Option ℕ → Requested
  failed : ProviderError → Requested
  broken : Requested

abbrev pub is_ok : ℕ → Bool
is_ok status = leb 200 status && leb status 299

abbrev among : List String → Option String → Bool
among codes code = some_and code (λ c. any (str_eq c) codes)

abbrev pub restricted_codes : Operation → List String
restricted_codes create_conversation =
    "16030001" ∷ "16030003" ∷ "16030007" ∷ "16030009" ∷ "16032001" ∷ "45101021" ∷ []
restricted_codes send_message = "16030100" ∷ "16030101" ∷ "16032001" ∷ []

-- The kind of an explicit rejection.
unfoldable pub rejection_kind : Operation → ℕ → Option String → ErrorKind
rejection_kind operation status code =
    if among ("105001" ∷ "105002" ∷ []) code
    then ErrorKind.auth
    else if among ("105005" ∷ []) code
    then ErrorKind.permission
    else if among ("16030002" ∷ "45101004" ∷ []) code
    then ErrorKind.quota
    else if among (restricted_codes operation) code
    then ErrorKind.restricted
    else if status == 429
        || leb 500 status
        || among ("36009002" ∷ "36009003" ∷ "36009007" ∷ []) code
    then ErrorKind.retryable
    else ErrorKind.provider

abbrev pub is_send : Operation → Bool
is_send send_message = true
is_send create_conversation = false

abbrev retry_after_of : ErrorKind → RetryAfter → RetryAfter
retry_after_of ErrorKind.retryable r = r
retry_after_of _ r = RetryAfter.absent

abbrev error_of : Response → ErrorKind → Option String → Option String → ProviderError
error_of r kind code request_id = record {
  kind = kind;
  provider_code = code;
  request_id = request_id;
  retry_after = retry_after_of kind r.retry_after;
  http_status = some r.status;
}

abbrev text_field : String → Option String → Fields
text_field name none = no_fields
text_field name (some s) = entry name (Json.text s) no_fields

-- A body that is no JSON.
unfoldable pub unread : Operation → Response → Requested
unread operation r =
    if r.status == 429
    then failed (error_of r ErrorKind.retryable none r.request_id)
    else if is_send operation
    then replied (entry "__deliveryUnknown" (Json.flag true) (text_field "request_id" r.request_id))
        (some r.status)
    else failed (record (error_of r ErrorKind.malformed_response none r.request_id) {
      kind = if leb 500 r.status then ErrorKind.retryable else ErrorKind.malformed_response;
      retry_after = r.retry_after;
    })

abbrev first_of_two : Option String → Option String → Option String
first_of_two none o = o
first_of_two (some s) o = some s

abbrev pub is_zero : Option String → Bool
is_zero code = some_and code (str_eq "0")

-- A body that is JSON, by its fields.
unfoldable pub decoded : Operation → Response → Fields → Requested
unfolding rejection_kind
decoded operation r fields =
    let code = as_number (field "code" fields) in
    let request_id = first_of_two (as_string (field "request_id" fields)) r.request_id in
    if is_ok r.status && is_zero code
    then replied fields (some r.status)
    else failed (error_of r (rejection_kind operation r.status code) code request_id)

abbrev pub fields_of : Json → Fields
fields_of j = or_else (as_object (some j)) no_fields

unfoldable pub read_body : Operation → Response → Option Json → Requested
unfolding unread decoded
read_body operation r none = unread operation r
read_body operation r (some j) = decoded operation r (fields_of j)

unfoldable pub request : Operation → Attempted → Requested
unfolding read_body
request operation no_cipher = broken
request operation no_response =
    if is_send operation
    then replied (entry "__deliveryUnknown" (Json.flag true) no_fields) none
    else failed (record {
      kind = ErrorKind.retryable;
      provider_code = none;
      request_id = none;
      retry_after = RetryAfter.absent;
      http_status = none;
    })
request operation (responded r) = read_body operation r r.body

-- createOrGetConversation, less isNew, which the worker does not read.
abbrev conversation_id : Fields → Option String
conversation_id fields =
    as_string (field "conversation_id" (or_else (as_object (field "data" fields)) no_fields))

abbrev opened_or : Option String → ProviderError → Conversed
opened_or (some id) e = Conversed.opened id
opened_or none e = Conversed.refused e

abbrev conversed : Requested → Conversed
conversed (replied fields status) = opened_or (conversation_id fields) (record {
  kind = ErrorKind.malformed_response;
  provider_code = some "0";
  request_id = as_string (field "request_id" fields);
  retry_after = RetryAfter.absent;
  http_status = status;
})
conversed (failed e) = Conversed.refused e
conversed broken = Conversed.broken

unfoldable pub create_or_get_conversation : Attempted → Conversed
unfolding request
create_or_get_conversation x = conversed (request create_conversation x)

abbrev pub message_id : Fields → Option String
message_id fields =
    as_string (field "message_id" (or_else (as_object (field "data" fields)) no_fields))

abbrev unknown_request : String
unknown_request = "unknown-request"

abbrev sent_or_unknown : Option String → String → Option ℕ → Sent
sent_or_unknown (some id) r status = Sent.sent id r status
sent_or_unknown none r status = Sent.delivery_unknown r status

-- What sendMessage answers to an error of the provider.
abbrev refused_by : ErrorKind → ProviderError → Sent
refused_by ErrorKind.restricted e =
    Sent.restricted (or_else e.request_id unknown_request) (or_else e.provider_code "RESTRICTED")
      e.http_status
refused_by ErrorKind.retryable e =
    Sent.retryable_error (or_else e.request_id unknown_request)
      (or_else e.provider_code "TEMPORARY") e.http_status e.retry_after
refused_by _ e = Sent.refused e

abbrev sent_of : Requested → Sent
sent_of (replied fields status) =
    let request_id = or_else (as_string (field "request_id" fields)) unknown_request in
    if is_true (field "__deliveryUnknown" fields)
    then Sent.delivery_unknown request_id status
    else sent_or_unknown (message_id fields) request_id status
sent_of (failed e) = refused_by e.kind e
sent_of broken = Sent.delivery_unknown unknown_request none

unfoldable pub send_to_provider : Attempted → Sent
unfolding request
send_to_provider x = sent_of (request send_message x)
