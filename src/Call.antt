-- ===== src/Call.antt =====
-- The terminal program call.
pub mod Dostime
pub mod Yapp
