-- ===== src/Challenge.antt =====
-- orchestrator/app/challenge.py: the manifest of a challenge and its win condition.
pub mod Manifest
pub mod Solve
pub mod Orders
pub mod Coerce
pub mod Sender
pub mod Field
pub mod Refusing
pub mod Loading
pub mod LoadTests
pub mod Tests
