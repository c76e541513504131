-- ===== src/Endpoint.antt =====
-- custom_components/sems_wallbox/native_endpoint.py: Socket A of the wallbox, redirected to Home
-- Assistant and given back.
pub mod Address
pub mod Device
pub mod Manager
pub mod Change
pub mod Confirmed
pub mod Foreign
pub mod Journaled
pub mod Cooperative
pub mod Restored
pub mod Accepted
mod Examples
