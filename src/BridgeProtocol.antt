-- ===== src/BridgeProtocol.antt =====
-- bridge_protocol.py: events and acknowledgements of the Event Protocol v1.
pub mod Checks
pub mod Event
pub mod Acknowledgement
