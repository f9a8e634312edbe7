-- ===== src/Linear/Acceptance.antt =====
-- acceptance.py of the Linear plugin: is a pull request proved on its exact head?
pub mod Reads
pub mod Receipt
pub mod Runs
pub mod Collect
pub mod Judge
pub mod Fallback
pub mod Passing
pub mod Accepted
pub mod Settled
pub mod Sources
pub mod Examples
