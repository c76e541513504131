-- ===== src/ObservedState.antt =====
-- observed_state.py: what a report says about the session and the vehicle.
pub mod Defs
pub mod Agreement
pub mod Examples
