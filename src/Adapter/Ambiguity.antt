-- ===== src/Adapter/Ambiguity.antt =====
-- After which responses of the provider the worker sends a message again: sendMessage
-- (packages/tiktok-adapter/src/real-outbound.ts) and what processSend (apps/worker/src/main.ts) does
-- with its answer.
use tiktok_outreach.Prelude.{
  ℕ, ◌≡◌, refl, String, Bool, true, false, ◌&&◌, Option, none, some, ◌==◌, arith, leb, or_else,
  ◌||◌, ◌⊎◌, List, [], ◌∷◌, any, some_and, str_eq,
}
use tiktok_outreach.Worker.Backoff.{RetryAfter}
use tiktok_outreach.Worker.Governor.{Permit}
use tiktok_outreach.Worker.Dispatch.Send.{
  ErrorKind, ProviderError, Sent, Effect, retries, JobEnd, after_send,
}
use tiktok_outreach.Adapter.{
  Json, field, as_number, is_ok, is_zero, fields_of, Response, responded, rejection_kind, decoded,
  read_body, request, send_to_provider, first_of_two, as_string, unknown_request,
}

-- The provider's codes after which another attempt is in order: the shop must authorise again (105001,
-- 105002), lacks a permission (105005), has reached its quota (16030002, 45101004) or is to try later.
abbrev pub retried_codes : List String
retried_codes =
    "105001" ∷ "105002" ∷ "105005" ∷ "16030002" ∷ "45101004" ∷ "36009002" ∷ "36009003" ∷ "36009007"
    ∷ []

-- The provider has said that it did not take the message now: it throttles the call, or it answers in
-- JSON, and not with success, one of these codes or a server's error.
abbrev pub Declined : Response → Type 0
Declined r =
    (r.status ≡ 429)
    ⊎ ((j : Json) × (r.body ≡ some j)
        × ((is_ok r.status && is_zero (as_number (field "code" (fields_of j)))) ≡ false)
        × ((leb 500 r.status
              || some_and (as_number (field "code" (fields_of j)))
                  (λ c. any (str_eq c) retried_codes))
            ≡ true))

abbrev is_return : Effect → Bool
is_return (retries code) = true
is_return e = false

-- The worker returns the delivery for another attempt.
abbrev pub returns : List Effect × JobEnd → Bool
returns a = any is_return a.0

abbrev is_retried : ErrorKind → Bool
is_retried ErrorKind.auth = true
is_retried ErrorKind.permission = true
is_retried ErrorKind.quota = true
is_retried ErrorKind.retryable = true
is_retried k = false

module _ (permit : Permit) (final : Bool) (draw : ℕ) (conversation : String) where
  abbrev answer : Sent → Bool
  answer x = returns (after_send permit final draw conversation x)

  abbrev an_error :
      ErrorKind → Option String → Option String → RetryAfter → Option ℕ → ProviderError
  an_error kind code request retry_after status = record {
    kind = kind;
    provider_code = code;
    request_id = request;
    retry_after = retry_after;
    http_status = status;
  }

server_status : (n : ℕ) → leb 500 n ≡ true → (is_ok n ≡ false) × ((n == 429) ≡ false)
server_status n h = (ground arith, ground arith)

-- A server's error in JSON that carries no code of the provider, as a gateway's timeout may, is
-- answered as one after which the message may be sent again.
pub send_to_provider-server_error :
    (r : Response) (j : Json)
    → r.body ≡ some j
    → field "code" (fields_of j) ≡ none
    → leb 500 r.status ≡ true
    → send_to_provider (responded r)
      ≡ Sent.retryable_error
          (or_else
            (first_of_two (as_string (field "request_id" (fields_of j))) r.request_id)
            unknown_request)
          "TEMPORARY"
          (some r.status)
          r.retry_after
unfolding send_to_provider request read_body decoded rejection_kind
send_to_provider-server_error r j body uncoded high =
    let (failing, unthrottled) = server_status r.status high in
    rw body (rw uncoded (rw failing (rw unthrottled (rw high refl))))
