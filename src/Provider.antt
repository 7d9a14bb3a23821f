-- ===== src/Provider.antt =====
-- The provider containment service, app/services/ghl.py over app/services/_ghl_types.py and
-- app/services/_ghl_helpers.py, and the transport wrapper app/services/integrations/ghl.py.
pub mod Types
pub mod Gate
pub mod Records
pub mod Emission
pub mod Engine
pub mod Transport
pub mod Containment
pub mod Delivery
mod Tests
