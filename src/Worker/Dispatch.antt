-- ===== src/Worker/Dispatch.antt =====
-- The outbound worker's handlers of the `outreach` queue (apps/worker/src/main.ts,
-- dispatch-safety.ts, delivery-policy.ts, campaign-completion.ts), over the database's rows.
pub mod Rows
pub mod Reserve
pub mod Claim
pub mod Effect
pub mod Completion
pub mod Settle
pub mod Send
pub mod Jobs
pub mod World
mod Claimable
mod Takes
mod Returns
mod Moves
pub mod Once
pub mod Sample
mod Tests
