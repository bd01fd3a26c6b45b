-- ===== src/Outreach/Send/Safely.antt =====
-- That a send that throws has queued nothing.
use tiktok_outreach.Prelude.{◌⊎◌, ℕ, ◌≡◌, true, none, some}
use tiktok_outreach.Worker.Dispatch.Rows.{Campaign, Store, campaign?}
use tiktok_outreach.Outreach.Results.{as_is, unexpected, safely_frozen, is_frozen_campaign}
use tiktok_outreach.Outreach.Send.{SendEnd}
use tiktok_outreach.Outreach.Send.Unqueued.{QueuesNothing}
use tiktok_outreach.Outreach.Send.Committed.{Committed}

-- What a send that throws has done. An error that is no HttpException and that send does not report
-- is of a read; with any other, nothing was queued. Where it says that the campaign is safely frozen,
-- the campaign is FROZEN.
abbrev pub FailsSafely : ℕ → Store → SendEnd → Type 0
FailsSafely id s (none, t) = Unit
FailsSafely id s (some e, t) =
    (e ≡ as_is unexpected)
    ⊎ QueuesNothing s t
      × (e ≡ safely_frozen
          → (c : Campaign) × (campaign? id t ≡ some c) × (is_frozen_campaign c.state ≡ true))
