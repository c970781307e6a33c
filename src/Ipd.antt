-- ===== src/Ipd.antt =====
-- The daemon ax25ipd.
pub mod Crc
pub mod Kiss
pub mod Frame
pub mod Call
pub mod Routing
pub mod Process
pub mod Setup
