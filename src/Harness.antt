-- ===== src/Harness.antt =====
-- The agent harness, src/harness: the parts of it that are plain functions.
pub mod Findings
pub mod Verdicts
pub mod Ledger
pub mod Signer
pub mod Stages
pub mod Attempts
