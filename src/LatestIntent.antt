-- ===== src/LatestIntent.antt =====
-- native_intent.py: the latest user choices while no verified transport is available.
pub mod Defs
pub mod Run
pub mod Retained
pub mod Timely
pub mod Expiry
pub mod Replay
pub mod Examples
