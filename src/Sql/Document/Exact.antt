-- ===== src/Sql/Document/Exact.antt =====
-- `analyze_sql` of src/sql.rs accepts exactly the documents that it should.
use dmlpact.System.{System}
