-- ===== src/Eligibility.antt =====
-- The eligibility assessment, app/services/eligibility.py over app/services/eligibility_types.py.
pub mod Types
pub mod Thresholds
pub mod Tier
pub mod Emit
pub mod Tally
pub mod Late
pub mod Candidacy
pub mod Rules
pub mod Gate
pub mod Simple
pub mod Table
pub mod Lineage
pub mod Rows
pub mod Priorities
pub mod Candidates
mod Tests
