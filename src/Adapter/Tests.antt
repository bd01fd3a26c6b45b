-- ===== src/Adapter/Tests.antt =====
-- Responses of the provider, and what sendMessage makes of them.
use tiktok_outreach.Prelude.{◌≡◌, refl, none, some}
use tiktok_outreach.Worker.Governor.{Permit}
use tiktok_outreach.Worker.Backoff.{RetryAfter}
use tiktok_outreach.Worker.Dispatch.Send.{Sent}
use tiktok_outreach.Adapter.{Json, no_fields, entry, Response, responded, send_to_provider}
use tiktok_outreach.Adapter.Ambiguity.{send_to_provider-server_error}

abbrev sent_body : Json
sent_body = Json.object (
    entry "code" (Json.number "0") (
      entry "data" (Json.object (entry "message_id" (Json.text "m1") no_fields))
        (entry "request_id" (Json.text "r1") no_fields)))

abbrev success : Response
success = record {
  status = 200;
  request_id = none;
  retry_after = RetryAfter.absent;
  body = some sent_body;
}

abbrev timeout_body : Json
timeout_body = Json.object (entry "message" (Json.text "upstream timeout") no_fields)

abbrev gateway_timeout : Response
gateway_timeout = record success { status = 504; body = some timeout_body }

success_sent : send_to_provider (responded success) ≡ Sent.sent "m1" "r1" (some 200)
unfolding send_to_provider
success_sent = refl

unread_unknown :
    send_to_provider (responded (record success { status = 504; body = none }))
    ≡ Sent.delivery_unknown "unknown-request" (some 504)
unfolding send_to_provider
unread_unknown = refl

abbrev quota_body : Json
quota_body = Json.object (entry "code" (Json.number "16030002") no_fields)

abbrev quota_reached : Response
quota_reached = record success { body = some quota_body }

abbrev permit : Permit
permit = record { id = 1; owner = "w"; expires_at = 100 }

send_to_provider-server_error_example :
    send_to_provider (responded gateway_timeout)
    ≡ Sent.retryable_error "unknown-request" "TEMPORARY" (some 504) RetryAfter.absent
send_to_provider-server_error_example =
    send_to_provider-server_error gateway_timeout timeout_body refl refl refl
