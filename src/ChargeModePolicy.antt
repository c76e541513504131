-- ===== src/ChargeModePolicy.antt =====
-- custom_components/sems_wallbox/charge_mode_policy.py: charging-mode intent, its verification
-- before a Start, and the operations that supersede one another.
pub mod World
pub mod Verify
pub mod Monad
pub mod Polling
pub mod Start
pub mod Settings
pub mod Against
pub mod Verified
pub mod Attempt
pub mod Started
pub mod Selected
pub mod Fenced
pub mod Entry
pub mod Examples
