-- ===== src/Output.antt =====
-- The bounded capture of command output, tools/activity/output.rs: `Capture` has the state and
-- what changes it, `Select` and `Project` have what is shown to clients and to the model.
pub mod Capture
pub mod Log
pub mod Grow
pub mod Trim
pub mod Invariant
pub mod HeadStep
pub mod TailStep
pub mod Store
pub mod Retention
pub mod Select
pub mod Delivery
pub mod Selection
pub mod Project
pub mod Projected
pub mod Examples
