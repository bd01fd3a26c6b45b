-- ===== src/Worker/Dispatch/Send.antt =====
-- processSend (apps/worker/src/main.ts) from the claim on: what it does with each answer of the
-- provider, as the list of its transactions in order. The adapter's answers are arguments.
use tiktok_outreach.Prelude.{
  ℕ, String, str_append, Bool, true, false, not, ◌&&◌, ◌||◌, List, [], ◌∷◌, ◌++◌, Option, none,
  some, if◌then◌else◌, or_else,
}
use tiktok_outreach.Worker.Backoff.{RetryAfter, is_provider_throttle}
use tiktok_outreach.Worker.Governor.{
  Operation, create_conversation, send_message, Permit, ResponseMeta,
}
use tiktok_outreach.Worker.Governor.Calls.{
  Call, healthies, throttles, transients, quota_blocks, releases,
}
use tiktok_outreach.Worker.Dispatch.Rows.{AttemptOutcome, AuditKind}
use tiktok_outreach.Worker.Dispatch.Settle.{Reply}

-- TikTokOutboundErrorKind.
pub data ErrorKind : Type 0 where
  auth permission quota restricted retryable provider malformed_response : ErrorKind

abbrev pub kind_text : ErrorKind → String
kind_text auth = "AUTH"
kind_text permission = "PERMISSION"
kind_text quota = "QUOTA"
kind_text restricted = "RESTRICTED"
kind_text retryable = "RETRYABLE"
kind_text provider = "PROVIDER"
kind_text malformed_response = "MALFORMED_RESPONSE"

-- TikTokOutboundError; the code is the text of the number.
pub record ProviderError : Type 0 where
  pub kind : ErrorKind
  pub provider_code : Option String
  pub request_id : Option String
  pub retry_after : RetryAfter
  pub http_status : Option ℕ

-- What createOrGetConversation answers: an ID, a provider's error, or any other error.
pub data Conversed : Type 0 where
  opened : String → Conversed
  refused : ProviderError → Conversed
  broken : Conversed

-- What sendMessage answers: SendMessageResult, or one of the two kinds of error.
pub data Sent : Type 0 where
  sent : String → String → Option ℕ → Sent
  delivery_unknown : String → Option ℕ → Sent
  restricted : String → String → Option ℕ → Sent
  quota_limited : String → String → Option ℕ → Sent
  retryable_error : String → String → Option ℕ → RetryAfter → Sent
  refused : ProviderError → Sent
  broken : Sent

-- The provider may have accepted the message: it said so, or its answer did not establish it.
abbrev pub may_be_accepted : Sent → Bool
may_be_accepted (sent message request status) = true
may_be_accepted (delivery_unknown request status) = true
may_be_accepted broken = true
may_be_accepted _ = false

-- One transaction of a handler; `governs` is a call of the provider's governor.
pub data Effect : Type 0 where
  governs : Operation → Call → Effect
  starts_attempt : Effect
  sets_conversation : String → Effect
  ends_attempt : AttemptOutcome → Reply → Effect
  recovers : Effect
  marks_sent : String → String → Option String → Effect
  marks_terminal : String → Effect
  marks_unknown : Option String → Option ℕ → Effect
  marks_restricted : String → Effect
  schedules : ℕ → Effect
  retries : String → Effect
  pauses_shop : String → AuditKind → Effect
  pauses_campaign pauses_requested completes_campaign : Effect
  ends_run : ℕ → Option String → Effect
  leaves_unresolved : ℕ → Effect

-- How the job ends: done, put off by the governor's delay or by a given one, or by an error that
-- makes the queue try again.
pub data JobEnd : Type 0 where
  done delayed_by_governor rethrown : JobEnd
  delayed : ℕ → JobEnd

abbrev meta_of : ProviderError → String → ResponseMeta
meta_of e code = record { http_status = e.http_status; business_code = some code }

abbrev no_meta : ResponseMeta
no_meta = record { http_status = none; business_code = none }

abbrev reply_of : ProviderError → String → Reply
reply_of e code = record {
  code = some code;
  http_status = e.http_status;
  request_id = e.request_id;
}

abbrev reply : String → Reply
reply code = record { code = some code; http_status = none; request_id = none }

abbrev quota_reason : String → String
quota_reason code =
    str_append "TikTok outbound IM quota "
      (str_append code " blocked outbound; provider recovery or operator action is required")

-- `kind` is AUTH or PERMISSION.
abbrev lower_kind : ErrorKind → String
lower_kind auth = "auth"
lower_kind permission = "permission"
lower_kind kind = kind_text kind

abbrev failure_reason : ErrorKind → String
failure_reason kind =
    str_append "TikTok "
      (str_append (lower_kind kind) " failure paused outbound; operator action is required")

abbrev pub code_or : ProviderError → String → String
code_or e default = or_else e.provider_code default

abbrev is_retryable : ErrorKind → Bool
is_retryable retryable = true
is_retryable _ = false

-- An error that ends one attempt of several, or the last.
abbrev pub attempt_end : Bool → Bool → AttemptOutcome
attempt_end throttled final =
    if throttled || not final
    then AttemptOutcome.failed_retryable
    else AttemptOutcome.failed_terminal

-- `permit` is the permit held, `final` whether this is the job's last attempt, `draw` the random
-- number of the governor's backoff.
module _ (permit : Permit) (final : Bool) (draw : ℕ) where
  -- The end of the handler of a failed conversation.
  abbrev conversation_failed : Bool → String → List Effect × JobEnd
  conversation_failed throttled code =
      if not throttled && final
      then (marks_terminal "CONVERSATION_SETUP_FAILED" ∷ completes_campaign ∷ [], done)
      else (retries code ∷ [], if throttled then delayed_by_governor else rethrown)

  abbrev after : List Effect → List Effect × JobEnd → List Effect × JobEnd
  after first (rest, job) = (first ++ rest, job)

  abbrev conversation_other : ProviderError → String → List Effect × JobEnd
  conversation_other e code =
      let throttled = is_retryable e.kind && is_provider_throttle e.http_status e.provider_code in
      after
        (governs create_conversation (
            if throttled
            then throttles permit (meta_of e code) e.retry_after draw
            else if is_retryable e.kind
            then transients permit (meta_of e code) draw
            else healthies permit false (meta_of e code))
          ∷ ends_attempt (attempt_end throttled final) (reply_of e code)
          ∷ [])
        (conversation_failed throttled code)

  unfoldable pub conversation_refused : ProviderError → List Effect × JobEnd
  conversation_refused e =
      let code = code_or e (kind_text e.kind) in
      elim e.kind [
        | quota ↦ (
          governs create_conversation (
                quota_blocks permit code "TikTok reported that the shop has reached its IM quota"
                  (meta_of e code))
              ∷ ends_attempt AttemptOutcome.failed_retryable (reply_of e code)
              ∷ retries code
              ∷ pauses_shop (quota_reason code) AuditKind.outbound_provider_im_quota_blocked
              ∷ [],
          done,
        )
        | auth ↦ (
          governs create_conversation (releases permit "AUTH_OR_PERMISSION" (meta_of e code))
              ∷ ends_attempt AttemptOutcome.failed_retryable (reply_of e code)
              ∷ retries code
              ∷ pauses_shop (failure_reason e.kind) AuditKind.outbound_provider_safety_paused
              ∷ [],
          done,
        )
        | permission ↦ (
          governs create_conversation (releases permit "AUTH_OR_PERMISSION" (meta_of e code))
              ∷ ends_attempt AttemptOutcome.failed_retryable (reply_of e code)
              ∷ retries code
              ∷ pauses_shop (failure_reason e.kind) AuditKind.outbound_provider_safety_paused
              ∷ [],
          done,
        )
        | restricted ↦ (
          governs create_conversation (healthies permit false (meta_of e code))
              ∷ ends_attempt AttemptOutcome.failed_terminal (reply_of e (code_or e "RESTRICTED"))
              ∷ marks_restricted (code_or e "RESTRICTED")
              ∷ completes_campaign
              ∷ [],
          done,
        )
        | _ ↦ conversation_other e code
      ]

  -- An error that is not the provider's.
  unfoldable pub conversation_broken : List Effect × JobEnd
  conversation_broken =
      after
        (governs create_conversation (transients permit no_meta draw)
          ∷ ends_attempt (attempt_end false final) (reply "CONVERSATION_SETUP_FAILED")
          ∷ [])
        (conversation_failed false "CONVERSATION_SETUP_FAILED")

  -- The handler of an error that sendMessage throws.
  unfoldable pub send_refused : ProviderError → List Effect × JobEnd
  send_refused e =
      let code = code_or e (kind_text e.kind) in
      elim e.kind [
        | auth ↦ (
          governs send_message (releases permit "AUTH_OR_PERMISSION" (meta_of e code))
              ∷ ends_attempt AttemptOutcome.failed_retryable (reply_of e code)
              ∷ retries code
              ∷ pauses_shop (failure_reason e.kind) AuditKind.outbound_provider_safety_paused
              ∷ [],
          done,
        )
        | permission ↦ (
          governs send_message (releases permit "AUTH_OR_PERMISSION" (meta_of e code))
              ∷ ends_attempt AttemptOutcome.failed_retryable (reply_of e code)
              ∷ retries code
              ∷ pauses_shop (failure_reason e.kind) AuditKind.outbound_provider_safety_paused
              ∷ [],
          done,
        )
        | quota ↦
            let code = code_or e "PROVIDER_IM_QUOTA" in
            (
              governs send_message
                    (quota_blocks permit code "TikTok reported a shop IM quota" (meta_of e code))
                  ∷ ends_attempt AttemptOutcome.failed_retryable (reply_of e code)
                  ∷ retries code
                  ∷ pauses_shop (quota_reason code) AuditKind.outbound_provider_im_quota_blocked
                  ∷ [],
              done,
            )
        | _ ↦ (
          governs send_message (healthies permit false (meta_of e code))
              ∷ ends_attempt AttemptOutcome.failed_terminal (reply_of e code)
              ∷ marks_terminal code
              ∷ completes_campaign
              ∷ [],
          done,
        )
      ]

  abbrev status_meta : Option ℕ → Option String → ResponseMeta
  status_meta status code = record { http_status = status; business_code = code }

  abbrev full_reply : String → Option ℕ → String → Reply
  full_reply code status request = record {
    code = some code;
    http_status = status;
    request_id = some request;
  }

  -- RETRYABLE_ERROR.
  unfoldable pub send_failed : String → String → Option ℕ → RetryAfter → List Effect × JobEnd
  send_failed request code status retry_after =
      let throttled = is_provider_throttle status (some code) in
      after
        (governs send_message (
            if throttled
            then throttles permit (status_meta status (some code)) retry_after draw
            else transients permit (status_meta status (some code)) draw)
          ∷ ends_attempt (attempt_end throttled final) (full_reply code status request)
          ∷ [])
        (if not throttled && final
          then (marks_terminal code ∷ completes_campaign ∷ [], done)
          else (retries code ∷ [], if throttled then delayed_by_governor else rethrown))

  -- The end of processSend, from sendMessage's answer on, in the conversation `conversation`.
  unfoldable pub after_send : String → Sent → List Effect × JobEnd
  unfolding send_refused send_failed
  after_send conversation (sent message request status) = (
    governs send_message (healthies permit true (status_meta status (some "0")))
        ∷ ends_attempt AttemptOutcome.sent (full_reply "0" status request)
        ∷ marks_sent conversation message (some request)
        ∷ completes_campaign
        ∷ [],
    done,
  )
  after_send conversation (delivery_unknown request status) = (
    governs send_message (releases permit "DELIVERY_UNKNOWN" (status_meta status none))
        ∷ marks_unknown (some request) status
        ∷ schedules 1
        ∷ completes_campaign
        ∷ [],
    done,
  )
  after_send conversation (restricted request code status) = (
    governs send_message (healthies permit false (status_meta status (some code)))
        ∷ ends_attempt AttemptOutcome.failed_terminal (full_reply code status request)
        ∷ marks_restricted code
        ∷ completes_campaign
        ∷ [],
    done,
  )
  after_send conversation (quota_limited request code status) = (
    governs send_message (
          quota_blocks permit code "TikTok reported that outbound IM quota is blocked"
            (status_meta status (some code)))
        ∷ ends_attempt AttemptOutcome.failed_retryable (full_reply code status request)
        ∷ retries code
        ∷ pauses_shop (quota_reason code) AuditKind.outbound_provider_im_quota_blocked
        ∷ [],
    done,
  )
  after_send conversation (retryable_error request code status retry_after) =
      send_failed request code status retry_after
  after_send conversation (refused e) = send_refused e
  after_send conversation broken = (
    governs send_message (releases permit "DELIVERY_UNKNOWN" no_meta)
        ∷ marks_unknown none none
        ∷ schedules 1
        ∷ completes_campaign
        ∷ [],
    done,
  )
