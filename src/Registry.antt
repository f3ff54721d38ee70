-- ===== src/Registry.antt =====
-- orchestrator/app/registry.py: the table of instances and its SQL statements. The table is the list
-- of its rows in the order of their insertion; the lock and the commit of each method make it one
-- step. Times are in microseconds.
mod Rows
pub mod Keys
pub mod Updates
pub mod Counts
pub mod Latest
pub mod Client
pub mod Counted
pub mod Opening
pub mod Tests
unfoldable pub use Rows.*
