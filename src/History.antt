-- ===== src/History.antt =====
-- HistoryProcessor (apps/api/src/history/history-processor.ts).
pub mod Rows
pub mod Pages
pub mod Errors
pub mod Runs
pub mod Sound
pub mod Steps
pub mod Advance
pub mod Failing
pub mod Turns
pub mod Invariant
pub mod Staging
pub mod Imports
pub mod Reading
pub mod Lease
pub mod Lost
pub mod Delays
pub mod Counting
mod Tests
