-- ===== src/Main.antt =====
-- orchestrator/app/main.py: the start of the orchestrator, up to where its servers run.
pub mod Start
pub mod Waiting
pub mod Serving
pub mod Ready
pub mod Ending
pub mod Tests
