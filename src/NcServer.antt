-- ===== src/NcServer.antt =====
-- orchestrator/app/ncserver.py: the menu that players reach over TCP.
pub mod Connections
pub mod Session
pub mod Format
pub mod Clock
pub mod Menu
pub mod Server
pub mod Bounds
pub mod Taking
pub mod Rounds
pub mod Gate
pub mod Passing
pub mod Release
pub mod Writing
pub mod Effects
pub mod Tests
pub mod PassTests
