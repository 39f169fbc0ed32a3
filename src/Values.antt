-- ===== src/Values.antt =====
-- pkg/skald: the values that every other part of the program exchanges.
pub mod Payload
pub mod Status
pub mod Errors
pub mod Float
pub mod Ids
pub mod Retry
