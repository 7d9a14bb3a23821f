-- ===== src/Outreach.antt =====
-- The outreach coordination service, app/services/outreach.py over app/services/_outreach_types.py and
-- app/services/_outreach_helpers.py.
pub mod Types
pub mod Gate
pub mod Intent
pub mod Records
pub mod Emission
pub mod Engine
pub mod Manual
pub mod Actions
pub mod Lifelines
pub mod Closing
pub mod Containment
pub mod Intents
mod Tests
