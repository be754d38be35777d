-- ===== src/Tests.antt =====
-- Runs on sample values, and each theorem at a concrete input.
pub mod Samples
pub mod Ledger
pub mod Submission
pub mod Blocks
pub mod Keeping
pub mod Topics
pub mod Queries
pub mod Calls
pub mod Births
pub mod Histories
pub mod Attempts
pub mod JsonRpc
pub mod Runs
