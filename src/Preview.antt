-- ===== src/Preview.antt =====
-- The dry run of a batch, `batch_preview` of app/routers/batch.py.
pub mod Batch
pub mod Ranking
pub mod Accounts
mod Tests
