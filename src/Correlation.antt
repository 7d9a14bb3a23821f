-- ===== src/Correlation.antt =====
-- The attribution middleware, app/middleware/correlation.py over app/middleware/_correlation_types.py and
-- app/middleware/_correlation_helpers.py.
pub mod Types
pub mod Gate
pub mod Resolve
pub mod Middleware
pub mod Lineage
mod Tests
