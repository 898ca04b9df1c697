-- ===== src/Types.antt =====
-- agent_control/types.py: the vocabulary that the layers share.
pub mod Verification
pub mod Failure
pub mod Action
pub mod Verdicts
