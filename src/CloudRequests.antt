-- ===== src/CloudRequests.antt =====
-- custom_components/sems_wallbox/cloud_rate_limit.py, operation_budget.py and cloud_observation.py:
-- when a request to the cloud may be sent, how long it may take, and the read of telemetry.
pub mod Budget
pub mod Gate
pub mod Timeouts
pub mod Sends
pub mod Kept
pub mod Cooldown
pub mod Wait
pub mod Observation
mod Examples
