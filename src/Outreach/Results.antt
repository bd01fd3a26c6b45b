-- ===== src/Outreach/Results.antt =====
-- How the methods of OutreachService fail (apps/api/src/outreach/outreach.service.ts), and what
-- safeSendFailure makes of it.
use tiktok_outreach.Prelude.{
  ◌≡◌, refl, String, str_append, Bool, true, false, ◌||◌, Option, none, some, if◌then◌else◌,
  includes,
}
use tiktok_outreach.Worker.Dispatch.Rows.{CampaignState, Store}

-- `unexpected` is any error that is not an HttpException: of renderMessage or of the database.
pub data OutreachError : Type 0 where
  campaign_not_found preview_stale no_eligible_recipients open_id_missing : OutreachError
  frozen_stale already_queued no_frozen_recipients preview_not_ready unexpected : OutreachError
  outbound_unavailable : String → OutreachError

pub data Result {ℓ} (A : Type ℓ) : Type ℓ where
  ok : A → Result A
  err : OutreachError → Result A

infixl 5 ◌>>=◌
abbrev pub ◌>>=◌ {ℓ κ} : {A : Type ℓ} {B : Type κ} → Result A → (A → Result B) → Result B
ok a >>= f = f a
err e >>= f = err e

abbrev pub or_throw {ℓ} : {A : Type ℓ} → Option A → OutreachError → Result A
or_throw none e = err e
or_throw (some a) e = ok a

-- Where a chain does not throw, its first part answered something that the rest went on with.
pub ok_of_chain {ℓ κ} :
    {A : Type ℓ} {B : Type κ} {b : B} (rest : A → Result B) (first : Result A)
    → (first >>= rest) ≡ ok b
    → (a : A) × (rest a ≡ ok b) × (first ≡ ok a)
ok_of_chain rest (err e) thrown = cc
ok_of_chain rest (ok a) answered = (a, answered, refl)

pub or_throw-eq-ok {ℓ} :
    {A : Type ℓ} (o : Option A) (e : OutreachError) {a : A} → or_throw o e ≡ ok a → o ≡ some a
or_throw-eq-ok none e h = cc
or_throw-eq-ok (some a) e h = cc

pub if-eq-ok {ℓ} :
    {A : Type ℓ} (b : Bool) (m : Result A) (e : OutreachError) {a : A}
    → (if b then m else err e) ≡ ok a
    → (b ≡ true) × (m ≡ ok a)
if-eq-ok true m e h = (refl, h)
if-eq-ok false m e h = cc

pub ok_inj {ℓ} : {A : Type ℓ} {a b : A} → ok a ≡ ok b → a ≡ b
ok_inj h = cc

-- What a method leaves: its error, if it throws, and the tables.
abbrev pub MethodEnd : Type 0
MethodEnd = Option OutreachError × Store

-- A transaction that throws is rolled back.
abbrev pub commit : Store → Result Store → MethodEnd
commit s (ok t) = (none, t)
commit s (err e) = (some e, s)

-- `return this.get(id)` after the work of a method: a read that may throw.
abbrev pub then_get : Bool → MethodEnd → MethodEnd
then_get true (none, s) = (some unexpected, s)
then_get fails end = end

abbrev pub message_of : OutreachError → String
message_of campaign_not_found = "Campaign not found"
message_of preview_stale = "Preview is stale; refresh it before freezing"
message_of no_eligible_recipients = "No eligible recipients to freeze"
message_of open_id_missing = "Every frozen recipient requires an exact TikTok Creator Open ID"
message_of frozen_stale = "Frozen preview is stale or expired"
message_of already_queued = "Campaign was already queued; refresh the campaign"
message_of no_frozen_recipients = "No frozen recipients remain; rediscover and freeze again"
message_of preview_not_ready = "Campaign preview is not ready to send"
message_of unexpected = ""
message_of (outbound_unavailable reason) = str_append "OUTBOUND_UNAVAILABLE: " reason

-- What send throws: an error as it is, or one of the four that safeSendFailure makes.
pub data SendError : Type 0 where
  as_is : OutreachError → SendError
  conflict unprocessable safely_frozen nothing_queued : SendError

abbrev pub is_frozen_campaign : CampaignState → Bool
is_frozen_campaign CampaignState.frozen = true
is_frozen_campaign _ = false

abbrev pub by_message : OutreachError → String → SendError
by_message error message =
    if includes message "stale" || includes message "already queued"
    then conflict
    else if includes message "No eligible recipients" || includes message "No frozen recipients"
    then unprocessable
    else as_is error

unfoldable pub safe_send_failure : OutreachError → CampaignState → SendError
unfolding includes
safe_send_failure unexpected state =
    if is_frozen_campaign state then safely_frozen else nothing_queued
safe_send_failure error state = by_message error (message_of error)
