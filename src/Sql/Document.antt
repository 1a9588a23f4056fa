-- ===== src/Sql/Document.antt =====
-- The analysis of a whole SQL document in src/sql.rs.
pub mod Accepted
pub mod Exact
pub mod Refused
use dmlpact.Base.{ℕ, ltb, String, Option, none, some, len}
use mathlib.Core.Option
use dmlpact.Base.Text.{as_bytes, is_blank}
use dmlpact.Error.{AppResult, ok, err, app_error, usage}
use dmlpact.Error.Pure.{◌>>=◌, ◌>>◌, refuse_if, ok_or}
use dmlpact.System.{System}
use dmlpact.Integrity.{sha256_bytes}
use dmlpact.Sql.Ast.{SqlParser, Statement}
use dmlpact.Sql.Forms.{
  AnalyzedSql, StatementDetails, policy, reject_unsafe_expressions, max_sql_bytes,
}
use dmlpact.Sql.Analyze.{analyze_statement, single_statement}

module _ (S : System) where
  open S use {parser}

  hash_text : String → String
  unfolding sha256_bytes as_bytes
  hash_text s = sha256_bytes S (as_bytes s)

  -- The last step of `analyze_sql`, from the statement and its details.
  unfoldable pub analyzed : String → Statement parser.Node → StatementDetails → AnalyzedSql
  unfolding hash_text
  analyzed raw statement details =
      let normalized = parser.statement_text statement in
      record {
        normalized = normalized;
        kind = details.kind;
        requested_table = details.table;
        sql_file_sha256 = hash_text raw;
        normalized_sql_sha256 = hash_text normalized;
        count_sql = details.count_sql;
        count_query_sha256 = Option.map hash_text details.count_sql;
        target_rows_sql = details.target_rows_sql;
        target_query_sha256 = Option.map hash_text details.target_rows_sql;
        inserted_rows = details.inserted_rows;
      }

  unfoldable pub analyze_sql : String → AppResult AnalyzedSql
  unfolding is_blank reject_unsafe_expressions analyze_statement single_statement analyzed
  analyze_sql raw = do
    refuse_if (ltb max_sql_bytes (len raw))
        (app_error usage "sql_file_too_large" "the SQL file exceeds the 1 MiB contract limit")
    refuse_if (is_blank raw) (policy "empty_sql" "the SQL file is empty")
    statements ←
        ok_or (parser.parse_sql raw)
          (policy "sql_parse_failed" "the SQL file is not valid supported PostgreSQL syntax")
    statement ← single_statement parser statements
    reject_unsafe_expressions (parser.visit_expressions statement)
    details ← analyze_statement parser statement
    ok (analyzed raw statement details)
