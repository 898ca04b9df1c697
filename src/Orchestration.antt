-- ===== src/Orchestration.antt =====
-- agent_control/workflow/nodes.py and graph.py: the graph that drives a workflow.
pub mod State
pub mod Selecting
pub mod Acting
pub mod Executing
pub mod Recovering
pub mod Batch
pub mod Routes
pub mod Gating
pub mod Bounded
pub mod Steady
pub mod Edges
pub mod Retrying
pub mod Completing
