-- ===== src/Procedures.antt =====
-- agent_control/procedure_store.py and procedure_validation.py: learned procedures and their life.
pub mod Model
pub mod Store
pub mod Placeholders
pub mod Definition
pub mod Evidence
pub mod Promotion
pub mod Health
pub mod Binding
pub mod Execution
pub mod Executed
pub mod Lifecycle
pub mod History
pub mod Quiet
pub mod Criteria
pub mod Trusted
pub mod Writes
pub mod Healthy
pub mod Promoted
