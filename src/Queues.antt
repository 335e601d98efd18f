-- ===== src/Queues.antt =====
-- src/queues.rs: the submission and the completion queue.
pub mod Bounds
pub mod Entry
pub mod Completion
pub mod Submission
mod Tests
