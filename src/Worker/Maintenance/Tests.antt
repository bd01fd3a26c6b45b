-- ===== src/Worker/Maintenance/Tests.antt =====
-- The maintenance sweep on a campaign whose freeze has ended.
use tiktok_outreach.Prelude.{◌≡◌, refl, [], ◌∷◌, none, some}
use tiktok_outreach.Worker.Dispatch.Rows.{CampaignState, Campaign, Store}
use tiktok_outreach.Worker.Dispatch.Sample.{campaign, database}
use tiktok_outreach.Worker.Maintenance.{JobState, maintenance_sweep}

abbrev frozen_campaign : Campaign
frozen_campaign = record campaign { state = CampaignState.frozen; freeze_expires_at = some 500 }

abbrev frozen_database : Store
frozen_database = record (database []) { campaigns = frozen_campaign ∷ [] }

swept_campaigns :
    (maintenance_sweep (λ p. JobState.absent) (λ p. none) 10 1000 frozen_database).campaigns
    ≡ record frozen_campaign { state = CampaignState.preview_expired; version = 4 } ∷ []
unfolding maintenance_sweep
swept_campaigns = refl

abbrev swept : Store
swept = maintenance_sweep (λ p. JobState.absent) (λ p. none) 10 1000 frozen_database
