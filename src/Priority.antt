-- ===== src/Priority.antt =====
-- The prioritization service, app/services/priority.py over app/services/_priority_types.py and
-- app/services/_priority_helpers.py.
pub mod Types
pub mod Gate
pub mod Tier
pub mod Scoring
pub mod Records
pub mod Emission
pub mod Engine
pub mod Display
pub mod Containment
pub mod Idempotency
pub mod Levels
pub mod Advice
pub mod Heuristic
mod Tests
