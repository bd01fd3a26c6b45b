-- ===== src/Outreach/Expiry.antt =====
-- expireFrozenCampaigns (apps/api/src/shared.ts).
use tiktok_outreach.Prelude.{
  ℕ, ◌&&◌, List, [], ◌∷◌, none, ◌==◌, if◌then◌else◌, select, length, count,
}
use tiktok_outreach.Prelude.Tables.{update_where, delete_where}
use tiktok_outreach.Worker.Dispatch.Rows.{RecipientState, Campaign, AuditKind, Store, is_campaign}
use tiktok_outreach.Worker.Maintenance.{expired_row, is_expired, is_reserved_of, reserves_for}

abbrev pub log : Campaign → AuditKind → Store → Store
log c kind s = record s {
  audit = record { shop_id = c.shop_id; campaign_id = c.id; kind = kind } ∷ s.audit;
}

-- One turn of the loop, and the loop.
unfoldable pub expire_one : ℕ → Campaign → Store → Store
expire_one now c s =
    if count (λ d. is_campaign c.id d && is_expired now d) s.campaigns == 0
    then s
    else log c AuditKind.campaign_freeze_expired (record s {
      campaigns =
          update_where (λ d. is_campaign c.id d && is_expired now d) expired_row s.campaigns;
      reservations = delete_where (reserves_for c.id s) s.reservations;
      recipients =
          update_where (is_reserved_of c.id)
            (λ p. record p {
              state = RecipientState.selected;
              frozen_message = none;
              content_hash = none;
            })
            s.recipients;
    })

unfoldable pub expire_each : ℕ → List Campaign → Store → Store
unfolding expire_one
expire_each now [] s = s
expire_each now (c ∷ cs) s = expire_each now cs (expire_one now c s)

unfoldable pub expire_frozen_campaigns : ℕ → Store → ℕ × Store
unfolding expire_each
expire_frozen_campaigns now s =
    let expired = select (is_expired now) s.campaigns in (length expired, expire_each now expired s)
