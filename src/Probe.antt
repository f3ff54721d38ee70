-- ===== src/Probe.antt =====
-- scripts/solvecheck_probe.py: a run of the solve check against a live network.
pub mod Run
pub mod Reads
pub mod Checked
pub mod Tests
