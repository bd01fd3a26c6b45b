-- ===== src/Worker/Governor.antt =====
-- OutboundProviderGovernor of apps/worker/src/outbound-throttle.ts. A lane is the row of one limiter
-- (App × Shop × operation) with its permits and events; each method is one transaction under the
-- lane's advisory lock. Instants are milliseconds, and `now` is an argument.
mod Lane
pub mod Acquire
pub mod Settle
pub mod Calls
pub mod Invariant
pub mod Spacing
pub mod Throttling
pub mod Recovery
mod Tests
pub use Lane.*
