-- ===== src/Examples.antt =====
-- Concrete runs, and the theorems at them.
pub mod Data
pub mod Runs
pub mod Batches
pub mod Histories
pub mod Values
pub mod Matching
pub mod Stores
pub mod Timers
pub mod Clock
