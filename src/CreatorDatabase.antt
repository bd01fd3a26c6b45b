-- ===== src/CreatorDatabase.antt =====
-- apps/api/src/creator-database: how the Marketplace is cut into partitions, and which is read next.
pub mod Buckets
pub mod Ranges
pub mod Expansion
pub mod Catalog
pub mod Rows
pub mod Selection
pub mod Scheduler
mod Tests
