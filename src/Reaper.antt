-- ===== src/Reaper.antt =====
-- orchestrator/app/reaper.py: the task that ends expired instances. `Task` is its
-- handle, and `_run` its rounds, each a sweep and a pause.
pub mod Sweep
pub mod Ends
pub mod Rounds
pub mod Expiry
pub mod Task
pub mod Tests
