-- ===== src/Worker/Dispatch/Rows.antt =====
-- The rows that the worker reads and writes: packages/db/prisma/schema.prisma. The texts that only
-- a display reads (names, details of an error, payloads) are left out.
use tiktok_outreach.Prelude.{ℕ, String, Bool, true, false, ◌&&◌, List, Option, ◌==◌, find, some_and}
use tiktok_outreach.Prelude.Int.{ℤ}

pub data CampaignState : Type 0 where
  draft discovering preview_ready preview_expired frozen queued running : CampaignState
  pause_requested paused safety_paused completed completed_with_errors cancelled : CampaignState

pub data RecipientState : Type 0 where
  discovered eligible selected reserved queued processing sent failed restricted : RecipientState
  delivery_unknown delivery_unknown_unresolved cancelled : RecipientState

pub data DeliveryState : Type 0 where
  pending dispatching sent failed_retryable failed_terminal restricted : DeliveryState
  delivery_unknown delivery_unknown_unresolved cancelled : DeliveryState

pub data OutboxState : Type 0 where
  pending enqueued completed safety_paused : OutboxState

-- The counters of campaignCompletionSummary.
pub record Completion : Type 0 where
  pub completed_successfully : Bool
  pub sent : ℕ
  pub restricted : ℕ
  pub failed : ℕ
  pub safety_cancelled : ℕ
  pub unresolved : ℕ
  pub other_terminal : ℕ
  pub terminal_recipients : ℕ

-- The numbers of `Campaign.summary` that a freeze reads and writes; a number that is missing is 0.
pub record Summary : Type 0 where
  pub selected : ℕ
  pub eligible : ℕ
  pub shortfall : ℕ
  pub skipped_do_not_contact : ℕ
  pub skipped_unknown_delivery : ℕ
  pub skipped_cooldown : ℕ
  pub skipped_active_reservation : ℕ
  pub freeze_adjustment : ℕ

pub record Campaign : Type 0 where
  pub id : ℕ
  pub shop_id : ℕ
  pub name : String
  pub product_name : String
  pub message_template : String
  pub target_count : ℕ
  pub ranks_ascending : Bool
  pub summary : Summary
  pub timezone : String
  pub state : CampaignState
  pub version : ℕ
  pub cooldown_days : ℕ
  pub dispatch_count : ℕ
  pub freeze_expires_at : Option ℕ
  pub safety_pause_reason : Option String
  pub completion : Option Completion

pub record Recipient : Type 0 where
  pub id : ℕ
  pub campaign_id : ℕ
  pub creator_id : ℕ
  pub state : RecipientState
  pub excluded : Bool
  pub skip_reason : Option String
  pub selected : Bool
  pub frozen_message : Option String
  pub content_hash : Option String
  pub creator_open_id : Option String
  pub ranking_value : ℤ
  pub frozen_rank : Option ℕ

pub record Creator : Type 0 where
  pub id : ℕ
  pub creator_open_id : Option String
  pub nickname : Option String
  pub username : Option String

pub record Delivery : Type 0 where
  pub id : ℕ
  pub recipient_id : ℕ
  pub campaign_id : ℕ
  pub state : DeliveryState
  pub content_hash : String
  pub attempt_count : ℕ
  pub first_dispatched_at : Option ℕ
  pub last_attempted_at : Option ℕ
  pub sent_at : Option ℕ
  pub conversation_id : Option String
  pub external_message_id : Option String
  pub provider_request_id : Option String
  pub last_error_code : Option String

pub record Reservation : Type 0 where
  pub recipient_id : ℕ
  pub shop_id : ℕ
  pub creator_id : ℕ
  pub expires_at : ℕ

pub record Contact : Type 0 where
  pub shop_id : ℕ
  pub creator_id : ℕ
  pub do_not_contact : Bool
  pub unresolved_delivery : Bool
  pub first_contacted_at : Option ℕ
  pub last_contacted_at : Option ℕ
  pub contact_count : ℕ
  pub last_campaign_id : Option ℕ
  pub last_delivery_id : Option ℕ

pub record OutboxEntry : Type 0 where
  pub recipient_id : ℕ
  pub campaign_id : ℕ
  pub delivery_id : ℕ
  pub state : OutboxState
  pub last_error : Option String

pub data AttemptOutcome : Type 0 where
  started sent failed_retryable failed_terminal delivery_unknown : AttemptOutcome

pub record Attempt : Type 0 where
  pub delivery_id : ℕ
  pub attempt_number : ℕ
  pub outcome : AttemptOutcome
  pub provider_code : Option String
  pub http_status : Option ℕ
  pub request_id : Option String
  pub started_at : ℕ
  pub completed_at : Option ℕ

pub data RunState : Type 0 where
  pending matched unresolved : RunState

pub record ReconciliationRun : Type 0 where
  pub delivery_id : ℕ
  pub attempt_number : ℕ
  pub state : RunState
  pub matched_message_id : Option String
  pub scheduled_for : ℕ
  pub completed_at : Option ℕ

pub record DispatchEvent : Type 0 where
  pub shop_id : ℕ
  pub campaign_id : ℕ
  pub delivery_id : ℕ
  pub dispatched_at : ℕ

pub record DailyUsage : Type 0 where
  pub shop_id : ℕ
  pub shop_date : ℕ
  pub dispatch_count : ℕ

-- A historical fact of an unknown sending that was matched to a creator.
pub record HistoricalFact : Type 0 where
  pub shop_id : ℕ
  pub creator_open_id : Option String
  pub is_unknown : Bool
  pub is_matched : Bool

pub data AuditKind : Type 0 where
  recipient_cancelled_pre_dispatch outbound_provider_safety_paused : AuditKind
  outbound_provider_im_quota_blocked campaign_freeze_expired campaign_cancelled : AuditKind
  campaign_frozen campaign_freeze_empty campaign_queued : AuditKind

pub record AuditEvent : Type 0 where
  pub shop_id : ℕ
  pub campaign_id : ℕ
  pub kind : AuditKind

pub record Store : Type 0 where
  pub campaigns : List Campaign
  pub creators : List Creator
  pub recipients : List Recipient
  pub deliveries : List Delivery
  pub reservations : List Reservation
  pub contacts : List Contact
  pub outbox : List OutboxEntry
  pub attempts : List Attempt
  pub runs : List ReconciliationRun
  pub dispatch_events : List DispatchEvent
  pub usage : List DailyUsage
  pub facts : List HistoricalFact
  pub audit : List AuditEvent

abbrev pub is_campaign : ℕ → Campaign → Bool
is_campaign id c = c.id == id

abbrev pub is_creator : ℕ → Creator → Bool
is_creator id c = c.id == id

abbrev pub is_recipient : ℕ → Recipient → Bool
is_recipient id r = r.id == id

abbrev pub is_delivery : ℕ → Delivery → Bool
is_delivery id d = d.id == id

abbrev pub reserves : ℕ → Reservation → Bool
reserves recipient v = v.recipient_id == recipient

abbrev pub is_contact : ℕ → ℕ → Contact → Bool
is_contact shop creator k = k.shop_id == shop && k.creator_id == creator

abbrev pub is_entry : ℕ → OutboxEntry → Bool
is_entry recipient e = e.recipient_id == recipient

abbrev pub is_attempt : ℕ → ℕ → Attempt → Bool
is_attempt delivery n a = a.delivery_id == delivery && a.attempt_number == n

abbrev pub is_run : ℕ → ℕ → ReconciliationRun → Bool
is_run delivery n r = r.delivery_id == delivery && r.attempt_number == n

abbrev pub campaign? : ℕ → Store → Option Campaign
campaign? id s = find (is_campaign id) s.campaigns

abbrev pub creator? : ℕ → Store → Option Creator
creator? id s = find (is_creator id) s.creators

abbrev pub recipient? : ℕ → Store → Option Recipient
recipient? id s = find (is_recipient id) s.recipients

abbrev pub delivery? : ℕ → Store → Option Delivery
delivery? id s = find (is_delivery id) s.deliveries

abbrev pub reservation? : ℕ → Store → Option Reservation
reservation? recipient s = find (reserves recipient) s.reservations

abbrev pub contact? : ℕ → ℕ → Store → Option Contact
contact? shop creator s = find (is_contact shop creator) s.contacts

-- `optional === id`.
abbrev pub refers_to : Option ℕ → ℕ → Bool
refers_to o id = some_and o (λ n. n == id)

-- The states from which a delivery may be dispatched.
abbrev pub is_claimable : DeliveryState → Bool
is_claimable pending = true
is_claimable failed_retryable = true
is_claimable _ = false

abbrev pub is_active : CampaignState → Bool
is_active queued = true
is_active running = true
is_active _ = false

-- The recipient that a handler has read, with the creator's ID and the rows that it includes.
pub record Snapshot : Type 0 where
  pub recipient : Recipient
  pub creator_open_id : Option String
  pub campaign : Campaign
  pub delivery : Delivery
