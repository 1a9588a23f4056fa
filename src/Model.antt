-- ===== src/Model.antt =====
-- The documents of the program (src/model.rs): limits, plans, table evidence, receipt events and
-- reports, with the fields in the source's order, and their equality tests.
mod Data
mod Equality
unfoldable pub use Data.*
unfoldable pub use Equality.*
