-- ===== src/Segmentation.antt =====
-- Student cohorts, app/services/segmentation.py.
pub mod Classify
pub mod Counting
pub mod Roles
mod Tests
