-- ===== src/History.antt =====
-- pkg/history: events, the history of a run, and the commands of a workflow task.
pub mod EventType
pub mod Attributes
pub mod Event
pub mod Validate
pub mod Dense
pub mod Valid
pub mod Command
