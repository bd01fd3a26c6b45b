-- ===== src/Domain.antt =====
-- packages/domain/src/index.ts: the rules of the program that touch no database.
pub mod Template
pub mod Creators
pub mod Filters
pub mod Ranking
pub mod Preview
pub mod Reconciliation
