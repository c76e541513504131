-- ===== src/NativeProtocol.antt =====
-- custom_components/sems_wallbox/native_protocol.py: framing, status and commands of the
-- native Socket A protocol.
pub mod Frame
pub mod Decoder
mod Drain
pub mod Stream
pub mod RoundTrip
pub mod Command
pub mod Commands
pub mod Status
mod Examples
