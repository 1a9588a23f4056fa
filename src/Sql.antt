-- ===== src/Sql.antt =====
-- The SQL policy of src/sql.rs: one INSERT VALUES, UPDATE or DELETE over one plain named table.
-- `Ast` is what the code reads of sqlparser's syntax tree, `Forms` its tests on single nodes,
-- `Analyze` the analysis of a statement and `Document` that of a text, read by `File`.
pub mod Ast
pub mod Forms
pub mod Analyze
pub mod Document
pub mod File
