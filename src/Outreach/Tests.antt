-- ===== src/Outreach/Tests.antt =====
-- A campaign is cancelled while the message of its only recipient is being sent.
use tiktok_outreach.Prelude.{◌≡◌, refl, false, [], some}
use tiktok_outreach.Outreach.Control.{cancel, cancel_campaign, cancel_recipients, unsent_ids, is_in}
use tiktok_outreach.Outreach.Stranded.{Stranded, cancel_strands}
use tiktok_outreach.Worker.Dispatch.Rows.{RecipientState, DeliveryState, Store}
use tiktok_outreach.Worker.Dispatch.Sample.{campaign, recipient, delivery, database_of, snapshot}

abbrev in_flight : Store
in_flight =
    database_of (record recipient { state = RecipientState.processing })
      (record delivery { state = DeliveryState.dispatching }) []

abbrev after_cancel : Store
after_cancel = cancel_campaign campaign (cancel_recipients [] in_flight)

cancels : cancel 7 in_flight ≡ some after_cancel
unfolding cancel cancel_recipients unsent_ids
cancels = refl

none_unsent : is_in (unsent_ids 7 in_flight) 5 ≡ false
unfolding unsent_ids
none_unsent = refl

cancel_strands_example : Stranded in_flight snapshot "CAMPAIGN_PAUSED_BEFORE_SEND" after_cancel
cancel_strands_example =
    cancel_strands in_flight after_cancel campaign snapshot "CAMPAIGN_PAUSED_BEFORE_SEND" refl refl
      none_unsent cancels
