-- ===== src/Instances.antt =====
-- orchestrator/app/instances.py: the life of an instance. The methods of `InstanceManager` are
-- functions on the table and the world. A call that waits (`await`) also lets the other tasks of the
-- event loop change the table, as the host says.
pub mod Tasks
pub mod Values
pub mod Spawn
pub mod Control
pub mod Reconcile
pub mod Capacity
pub mod Interleaving
pub mod Revival
pub mod Booting
pub mod Polling
pub mod Secrecy
pub mod Killing
pub mod Frames
pub mod Slots
pub mod Outcome
pub mod Success
pub mod Noting
pub mod Cleaning
pub mod Steps
pub mod SpawnSteps
pub mod Methods
pub mod Startup
pub mod Tests
pub mod BootTests
pub mod PollTests
pub mod CleanTests
pub mod FlagTests
pub mod BesideTests
pub mod StepTests
