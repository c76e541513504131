-- ===== src/AutomaticFallback.antt =====
-- native_fallback.py: the automatic handover between the cloud and the local connection.
pub mod State
pub mod Tick
pub mod Permitted
pub mod Handover
pub mod Examples
