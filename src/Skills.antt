-- ===== src/Skills.antt =====
-- agent_control/skills: the registry of skills and the gate in front of the planner.
pub mod Gate
pub mod Registry
pub mod Audited
pub mod Dispatch
pub mod Ordering
