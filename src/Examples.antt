-- ===== src/Examples.antt =====
-- The theorems at work on a small device of three slots, and the operations run on it.
pub mod World
pub mod Data
pub mod Facts
pub mod Operations
pub mod States
pub mod Modules
pub mod Runs
pub mod Providers
pub mod Runtimes
pub mod Entries
pub mod Loads
