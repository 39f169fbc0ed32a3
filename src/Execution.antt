-- ===== src/Execution.antt =====
-- internal/execution: the derived state of a workflow run and the rules for advancing it.
pub mod Random
pub mod State
pub mod Apply
pub mod Append
pub mod Effect
pub mod Transitions
pub mod Commands
pub mod Closing
pub mod Complete
pub mod Activity
pub mod Operation
pub mod Keeps
pub mod Replay
pub mod Consistent
pub mod Closed
pub mod Limits
pub mod Placeholder
pub mod Batch
pub mod Unrecorded
pub mod Polls
pub mod Task
