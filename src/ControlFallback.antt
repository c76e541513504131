-- ===== src/ControlFallback.antt =====
-- custom_components/sems_wallbox/native_control_fallback.py: a control that the cloud cannot carry
-- out is moved to the native connection.
pub mod State
pub mod Prepare
pub mod Recover
pub mod Awaits
pub mod Carried
pub mod Routed
pub mod Handed
pub mod Prepared
mod Examples
