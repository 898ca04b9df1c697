-- ===== src/Runtime.antt =====
-- agent_control/runtime.py over agent_control/runtime_persistence.py: the registry of tasks.
pub mod State
pub mod Redaction
pub mod Secrets
pub mod Redacted
pub mod Saved
pub mod Written
pub mod Stored
pub mod Task
pub mod Store
pub mod Manager
pub mod Moves
pub mod Cleanup
pub mod Approvals
pub mod Restart
pub mod Operations
pub mod Lawful
pub mod Lifecycle
pub mod Transitions
pub mod Owners
pub mod Collection
pub mod Evolution
pub mod Registry
pub mod Outcomes
pub mod Answers
pub mod Recovered
