-- ===== src/Channel.antt =====
-- The channel advisory service, app/services/channel_selector.py over app/services/channel_selector_types.py
-- and app/services/_channel_advisory_helpers.py.
pub mod Types
pub mod Thresholds
pub mod Tier
pub mod Gate
pub mod Ranking
pub mod Emit
pub mod Late
pub mod Rules
pub mod Partition
pub mod Soundness
pub mod Advice
mod Tests
