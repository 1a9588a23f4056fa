-- ===== src/Db.antt =====
-- The PostgreSQL side of the program (src/db.rs): names and texts in `Names`, the connection in
-- `Connect`, the queries for evidence in `Evidence`, and the table policy in `Policy`.
pub mod Names
pub mod Connect
pub mod Queries
pub mod Evidence
pub mod Policy
pub mod Quiet
