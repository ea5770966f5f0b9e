-- ===== src/Examples.antt =====
-- Concrete inputs, and the theorems' instances at them.
pub mod Setup
pub mod Instances
pub mod OneFile
pub mod Runs
pub mod Stored
pub mod Shared
pub mod Mounts
pub mod Running
pub mod Statements
pub mod Start
pub mod Crowd
