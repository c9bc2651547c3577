-- ===== src/Policy.antt =====
-- The merge-queue policy checks of scripts/test-merge-queue-policy.py: the readers of workflow files,
-- the contract of the required workflow, the test methods and their fixtures.
pub mod Lines
pub mod Triggers
pub mod Jobs
pub mod Steps
pub mod Shell
pub mod Contract
pub mod Violations
pub mod Membership
pub mod Accepted
pub mod Workflows
pub mod Fixtures
pub mod Wiring
mod Tests
mod Witnesses
