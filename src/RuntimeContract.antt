-- ===== src/RuntimeContract.antt =====
-- runtime_contract.py: the lifecycle messages between the control plane and the runtime adapter.
pub mod Enums
pub mod Checks
pub mod Request
pub mod Status
pub mod Builders
