-- ===== src/Worker/Maintenance/Expiry.antt =====
-- After a sweep no frozen campaign has outlived its freeze.
use tiktok_outreach.Prelude.{ℕ, ◌≡◌, Bool, true, List, some, ◌==◌, any, ◌<◌}
use tiktok_outreach.Worker.Dispatch.Rows.{CampaignState, Campaign}
use tiktok_outreach.Worker.Maintenance.{is_expired}

module _ (now : ℕ) where
  abbrev is_listed : List Campaign → Campaign → Bool
  is_listed cs d = any (λ c. d.id == c.id) cs

  -- What is expired and was not reached yet is still to come.
  abbrev Pending : List Campaign → Campaign → Type 0
  Pending cs d = is_expired now d ≡ true → is_listed cs d ≡ true

-- A campaign that is FROZEN has a freeze that ends later.
abbrev pub Outlives : ℕ → Campaign → Type 0
Outlives now c = c.state ≡ CampaignState.frozen → (t : ℕ) → c.freeze_expires_at ≡ some t → now < t
