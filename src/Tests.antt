-- ===== src/Tests.antt =====
-- A concrete world for the parameters, and each theorem applied in it to concrete inputs.
pub mod World
mod Trackers
mod Labels
mod Points
mod Rotations
mod Reports
mod Settings
mod Threads
mod Meters
mod Posts
mod Evicted
mod Stripped
mod Readings
mod Lives
