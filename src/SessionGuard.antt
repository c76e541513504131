-- ===== src/SessionGuard.antt =====
-- custom_components/sems_wallbox/native_session_guard.py: supervision of the measured power
-- after a native Start.
pub mod Defs
pub mod Trace
pub mod Invariant
pub mod Safety
pub mod Allowances
pub mod Reduction
mod Examples
