-- ===== src/Policy.antt =====
-- agent_control/policy.py: the gate in front of every action.
pub mod Paths
pub mod Urls
pub mod Commands
pub mod Gate
pub mod Confined
pub mod Permits
pub mod Allowed
pub mod Hosts
