-- ===== src/Lifecycle.antt =====
-- The outreach lifecycle, app/state_machine.py.
pub mod Machine
pub mod Histories
mod Tests
