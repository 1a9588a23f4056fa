-- ===== src/Engine.antt =====
-- The commands of src/engine.rs: `Limits` the bounds of a plan, `Target` the evidence on the target
-- rows, `Binding` the checks between a plan and its SQL, `Planning` the making of a plan, `Finish`
-- the end of a receipt, `Apply` the guarded execution, and `Reports` the two read-only reports.
pub mod Limits
pub mod Target
pub mod Binding
pub mod Finish
pub mod Apply
pub mod Planning
pub mod Reports
pub mod Quiet
pub mod Carried
pub mod Unchanged
