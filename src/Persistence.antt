-- ===== src/Persistence.antt =====
-- internal/persistence: the contract of the store, and the store in memory.
pub mod Record
pub mod Store
pub mod Checks
pub mod Plan
pub mod Create
pub mod Append
pub mod Reads
pub mod Timers
pub mod Maintenance
pub mod History
pub mod Range
