-- ===== src/Recovery.antt =====
-- agent_control/recovery.py: how a failure is named, what may be tried next, and the budget that
-- bounds it. The reasons that the source writes as text are constructors here.
pub mod Retry
pub mod Naming
pub mod Budget
pub mod Classify
pub mod Bounds
pub mod Runs
pub mod Evidence
