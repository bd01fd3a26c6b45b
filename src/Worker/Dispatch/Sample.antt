-- ===== src/Worker/Dispatch/Sample.antt =====
-- A campaign of one recipient, for the tests.
use tiktok_outreach.Prelude.{true, false, List, [], ◌∷◌, none, some}
use tiktok_outreach.Prelude.Int.{pos}
use tiktok_outreach.Worker.Dispatch.Rows.{
  CampaignState, RecipientState, DeliveryState, Campaign, Creator, Recipient, Delivery, Reservation,
  Contact, Store, Snapshot,
}

abbrev pub campaign : Campaign
campaign = record {
  id = 7;
  shop_id = 1;
  name = "May";
  product_name = "Tea";
  message_template = "Hi {{creator_display_name}}";
  target_count = 1;
  ranks_ascending = false;
  summary = record {
    selected = 1;
    eligible = 1;
    shortfall = 0;
    skipped_do_not_contact = 0;
    skipped_unknown_delivery = 0;
    skipped_cooldown = 0;
    skipped_active_reservation = 0;
    freeze_adjustment = 0;
  };
  timezone = "UTC";
  state = CampaignState.queued;
  version = 3;
  cooldown_days = 30;
  dispatch_count = 0;
  freeze_expires_at = none;
  safety_pause_reason = none;
  completion = none;
}

abbrev pub recipient : Recipient
recipient = record {
  id = 5;
  campaign_id = 7;
  creator_id = 4;
  state = RecipientState.queued;
  excluded = false;
  skip_reason = none;
  selected = true;
  frozen_message = some "hello";
  content_hash = some "h";
  creator_open_id = some "o";
  ranking_value = pos 10;
  frozen_rank = some 1;
}

abbrev pub creator : Creator
creator = record { id = 4; creator_open_id = some "o"; nickname = some "Ada"; username = none }

abbrev pub delivery : Delivery
delivery = record {
  id = 9;
  recipient_id = 5;
  campaign_id = 7;
  state = DeliveryState.pending;
  content_hash = "h";
  attempt_count = 0;
  first_dispatched_at = none;
  last_attempted_at = none;
  sent_at = none;
  conversation_id = none;
  external_message_id = none;
  provider_request_id = none;
  last_error_code = none;
}

abbrev pub reservation : Reservation
reservation = record { recipient_id = 5; shop_id = 1; creator_id = 4; expires_at = 900000 }

abbrev pub database_of : Recipient → Delivery → List Contact → Store
database_of recipient delivery contacts = record {
  campaigns = campaign ∷ [];
  creators = creator ∷ [];
  recipients = recipient ∷ [];
  deliveries = delivery ∷ [];
  reservations = reservation ∷ [];
  contacts = contacts;
  outbox = [];
  attempts = [];
  runs = [];
  dispatch_events = [];
  usage = [];
  facts = [];
  audit = [];
}

abbrev pub database : List Contact → Store
database contacts = database_of recipient delivery contacts

abbrev pub blocked : Contact
blocked = record {
  shop_id = 1;
  creator_id = 4;
  do_not_contact = true;
  unresolved_delivery = false;
  first_contacted_at = none;
  last_contacted_at = none;
  contact_count = 0;
  last_campaign_id = none;
  last_delivery_id = none;
}

abbrev pub snapshot : Snapshot
snapshot = record {
  recipient = recipient;
  creator_open_id = some "o";
  campaign = campaign;
  delivery = delivery;
}
