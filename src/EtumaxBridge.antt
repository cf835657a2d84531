-- ===== src/EtumaxBridge.antt =====
-- tools/etumax_bridge.py: the one-shot bridge that runs the diagnostic in a subprocess, checks its
-- report and answers with one envelope.
pub mod Diagnostic
pub mod Input
pub mod Correlation
pub mod Envelope
pub mod Run
