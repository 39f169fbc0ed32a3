-- ===== src/Matching.antt =====
-- internal/matching: the task queues that workers poll.
pub mod Task
pub mod Queue
pub mod Calls
pub mod Matcher
