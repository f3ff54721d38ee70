-- ===== src/Docker.antt =====
-- orchestrator/app/docker_manager.py. The Docker SDK is a parameter: a record of the calls that the
-- manager makes, each on a state of the world outside the program and each with a result or an
-- exception. The same record has the clock, and what the event loop's other tasks do during a wait.
pub mod Sdk
pub mod Manager
pub mod Cleanup
pub mod Tests
