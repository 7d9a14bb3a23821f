-- ===== src/Worker.antt =====
-- The worker, app/services/worker.py over app/services/_worker_types.py and
-- app/services/_worker_helpers.py, which joins the coordination of Outreach to the containment of Provider.
pub mod Types
pub mod Gate
pub mod Context
pub mod Records
pub mod Engine
pub mod Batch
pub mod Containment
pub mod Accounts
mod Tests
