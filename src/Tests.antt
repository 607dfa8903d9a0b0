-- ===== src/Tests.antt =====
-- Runs of the definitions, and the theorems at concrete inputs.
pub mod Data
pub mod Queue
pub mod Leasing
pub mod Policies
pub mod Reconciling
pub mod Dispatching
pub mod Turns
pub mod Cleaning
