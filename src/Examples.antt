-- ===== src/Examples.antt =====
-- Tests, and the theorems at concrete inputs.
pub mod World
pub mod Sessions
pub mod Keys
pub mod Entry
pub mod Delivery
pub mod Rows
pub mod Calls
pub mod Handlers
pub mod Task
pub mod Database
pub mod Settings
pub mod Service
pub mod Registry
