-- ===== src/Tests.antt =====
-- Runs of the models at concrete inputs, and the theorems at inputs that meet their hypotheses.
pub mod Host
mod Contract
mod Launch
mod Protocol
mod Bridge
mod Guest
mod Recipe
mod Jni
mod Device
mod Audit
mod Release
mod Console
mod Backends
mod Manager
