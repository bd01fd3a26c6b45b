-- ===== src/Outreach.antt =====
-- apps/api/src/outreach: what the operator does to a campaign.
pub mod Results
pub mod Expiry
pub mod Queue
pub mod Freeze
pub mod Send
pub mod Control
pub mod Stranded
mod Tests
