-- ===== src/Workflow.antt =====
-- agent_control/workflow: the steps of a workflow, and the scheduler that runs them.
pub mod Status
pub mod Model
pub mod Transitions
pub mod Locks
pub mod Ready
pub mod Readiness
pub mod Aggregate
pub mod Run
pub mod Rounds
pub mod Lasting
pub mod Progress
pub mod Proven
pub mod Returns
pub mod Dispatch
pub mod Graph
pub mod Recover
pub mod Validation
pub mod Checked
pub mod Counting
pub mod Releasing
pub mod Sorting
pub mod Sources
pub mod Ranking
pub mod Acyclic
pub mod Accepted
pub mod Alive
pub mod Follows
pub mod Freed
pub mod Contexts
pub mod Completes
pub mod Totals
pub mod Carried
pub mod Unlocked
pub mod Underway
pub mod Emptied
pub mod Completion
pub mod Turns
pub mod Ends
pub mod Inference
pub mod Planning
pub mod Inferred
pub mod Placed
pub mod Planned
pub mod Fulfilled
pub mod Revival
