-- ===== src/ModeAdapter.antt =====
-- custom_components/sems_wallbox/charge_mode_adapter.py: the independent reads and the writes that
-- ChargeModePolicy makes of a cloud or Modbus wallbox.
pub mod Report
pub mod Read
pub mod Idle
pub mod Stop
mod Examples
