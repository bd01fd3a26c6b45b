-- ===== src/Outreach/Control.antt =====
-- pause, resume and cancel of OutreachService (apps/api/src/outreach/outreach.service.ts). `none` is
-- a refusal: the method throws.
use tiktok_outreach.Prelude.{
  ℕ, suc, Bool, true, false, not, ◌&&◌, List, ◌∷◌, map, Option, none, some, ◌==◌, if◌then◌else◌,
  some_and, any, select, includes,
}
use tiktok_outreach.Prelude.Tables.{update_where, delete_where}
use tiktok_outreach.Worker.Dispatch.Rows.{
  CampaignState, RecipientState, DeliveryState, OutboxState, Campaign, Recipient, AuditKind, Store,
  is_campaign, campaign?, is_active, is_claimable,
}

abbrev move_campaign : ℕ → (Campaign → Campaign) → Store → Store
move_campaign id f s = record s { campaigns = update_where (is_campaign id) f s.campaigns }

unfoldable pub pause : ℕ → Store → Option Store
pause id s = elim (campaign? id s) [
  | none ↦ none
  | some c ↦
      if is_active c.state
      then some (
          move_campaign id
            (λ c. record c { state = CampaignState.pause_requested; version = suc c.version }) s)
      else none
]

abbrev pub is_cancellable : CampaignState → Bool
is_cancellable CampaignState.frozen = true
is_cancellable CampaignState.queued = true
is_cancellable CampaignState.running = true
is_cancellable CampaignState.pause_requested = true
is_cancellable CampaignState.paused = true
is_cancellable CampaignState.safety_paused = true
is_cancellable _ = false

abbrev pub is_cancelled_campaign : CampaignState → Bool
is_cancelled_campaign CampaignState.cancelled = true
is_cancelled_campaign _ = false

-- RESERVED or QUEUED.
abbrev is_waiting_recipient : RecipientState → Bool
is_waiting_recipient RecipientState.reserved = true
is_waiting_recipient RecipientState.queued = true
is_waiting_recipient _ = false

abbrev pub is_unsent : ℕ → Recipient → Bool
is_unsent campaign p = p.campaign_id == campaign && is_waiting_recipient p.state

-- `campaignRecipientId: { in: ids }`.
abbrev pub is_in : List ℕ → ℕ → Bool
is_in ids id = any (λ k. k == id) ids

unfoldable pub unsent_ids : ℕ → Store → List ℕ
unsent_ids campaign s = map (λ p. p.id) (select (is_unsent campaign) s.recipients)

unfoldable pub cancel_recipients : List ℕ → Store → Store
cancel_recipients ids s = record s {
  deliveries =
      update_where (λ d. is_in ids d.recipient_id && is_claimable d.state)
        (λ d. record d {
          state = DeliveryState.cancelled;
          last_error_code = some "CAMPAIGN_CANCELLED";
        })
        s.deliveries;
  recipients =
      update_where (λ p. is_in ids p.id) (λ p. record p { state = RecipientState.cancelled })
        s.recipients;
  outbox =
      update_where (λ e. is_in ids e.recipient_id)
        (λ e. record e {
          state = OutboxState.completed;
          last_error = some "Campaign cancelled before dispatch";
        })
        s.outbox;
  reservations = delete_where (λ v. is_in ids v.recipient_id) s.reservations;
}

abbrev pub cancel_campaign : Campaign → Store → Store
cancel_campaign c s = record s {
  campaigns =
      update_where (is_campaign c.id)
        (λ c. record c { state = CampaignState.cancelled; version = suc c.version }) s.campaigns;
  audit =
      record { shop_id = c.shop_id; campaign_id = c.id; kind = AuditKind.campaign_cancelled }
      ∷ s.audit;
}

unfoldable pub cancel : ℕ → Store → Option Store
unfolding cancel_recipients unsent_ids
cancel id s = elim (campaign? id s) [
  | none ↦ none
  | some c ↦
      if is_cancellable c.state
      then some (cancel_campaign c (cancel_recipients (unsent_ids id s) s))
      else if is_cancelled_campaign c.state
      then some s
      else none
]

-- The entries that a safety pause stopped wait again.
abbrev requeue : ℕ → Store → Store
requeue id s = record s {
  outbox =
      update_where (λ e. e.campaign_id == id && is_safety_paused_entry e.state)
        (λ e. record e { state = OutboxState.pending; last_error = none }) s.outbox;
}
  where
    is_safety_paused_entry : OutboxState → Bool
    is_safety_paused_entry OutboxState.safety_paused = true
    is_safety_paused_entry _ = false

abbrev pub is_safety_paused : CampaignState → Bool
is_safety_paused CampaignState.safety_paused = true
is_safety_paused _ = false

abbrev pub is_paused : CampaignState → Bool
is_paused CampaignState.paused = true
is_paused CampaignState.pause_requested = true
is_paused CampaignState.safety_paused = true
is_paused _ = false

abbrev pub quota_recovery : Campaign → Bool
quota_recovery c =
    is_safety_paused c.state && some_and c.safety_pause_reason (λ t. includes t "IM quota")

abbrev restart : ℕ → Store → Store
restart id s =
    move_campaign id
      (λ c. record c {
        state = CampaignState.queued;
        safety_pause_reason = none;
        version = suc c.version;
      })
      s

-- The lanes of the shop are moved by `operator_retry` of Worker/Governor/Calls.
unfoldable pub resume : ℕ → Store → Option Store
resume id s = elim (campaign? id s) [
  | none ↦ none
  | some c ↦
      if not (is_paused c.state)
      then none
      else if is_safety_paused c.state && not (quota_recovery c)
      then none
      else some (restart id (if quota_recovery c then requeue id s else s))
]
