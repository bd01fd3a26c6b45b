-- ===== src/Worker.antt =====
-- apps/worker/src: the outbound worker.
pub mod Backoff
pub mod Governor
pub mod Dispatch
pub mod Maintenance
