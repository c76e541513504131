-- ===== src/NativeReports.antt =====
-- Optional reports and checks of the native connection: native_energy.py, native_configuration.py,
-- native_faults.py, native_power_limits.py, native_start_verification.py, native_idle_polling.py.
pub mod Storage
pub mod Faults
pub mod FaultBits
pub mod Power
pub mod Window
mod Examples
