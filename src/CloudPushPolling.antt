-- ===== src/CloudPushPolling.antt =====
-- cloud_push_polling.py: the polling interval while a telemetry stream is verified.
pub mod Defs
pub mod Count
pub mod Trust
pub mod Examples
