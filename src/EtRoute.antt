-- ===== src/EtRoute.antt =====
-- etroute.py: the environment manager.
pub mod Errors
pub mod Names
pub mod Argv
pub mod Install
pub mod Commands
