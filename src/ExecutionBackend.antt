-- ===== src/ExecutionBackend.antt =====
-- execution_backend.py: native and PRoot execution.
pub mod Config
pub mod Machine
pub mod Running
pub mod Registry
