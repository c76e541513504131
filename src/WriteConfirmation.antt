-- ===== src/WriteConfirmation.antt =====
-- write_confirmation.py: bounded readback after controls.
pub mod Match
pub mod Defs
pub mod Schedule
pub mod Judged
pub mod Watched
pub mod Operations
pub mod Bounded
pub mod Shown
pub mod Confirmed
pub mod Outdated
pub mod Tickets
pub mod Decorators
pub mod Examples
