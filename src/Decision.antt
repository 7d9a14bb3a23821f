-- ===== src/Decision.antt =====
-- The decision engine, app/services/decision_engine.py: its types, its rules, and what they keep.
pub mod Types
pub mod Thresholds
pub mod Gate
pub mod Risk
pub mod Log
pub mod Actions
pub mod Pipeline
pub mod Replay
pub mod Engine
pub mod Preview
pub mod Entry
pub mod Table
pub mod Resolution
pub mod Rows
pub mod Lineage
pub mod Containment
pub mod Privacy
pub mod RiskBounds
pub mod Contact
mod Tests
