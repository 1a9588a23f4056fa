-- ===== src/Sql/File.antt =====
-- The reading of an SQL file in src/sql.rs.
use dmlpact.Base.{String, ltb, not}
use dmlpact.Error.{app_error, usage, io}
use dmlpact.System.{System, Effect}
use dmlpact.System.Monad.{M, ◌>>=◌, ◌>>◌, ask_or, lift, refuse_if}
use dmlpact.Sql.Forms.{AnalyzedSql, max_sql_bytes}
use dmlpact.Sql.Document.{analyze_sql}

module _ (S : System) where
  unfoldable pub read_and_analyze : String → M AnalyzedSql
  unfolding analyze_sql
  read_and_analyze path = do
    metadata ←
        ask_or (Effect.read_metadata path) (λ t. S.metadata t path)
          (app_error io "sql_file_unreadable" "the SQL file could not be read")
    refuse_if (not metadata.is_file)
        (app_error usage "sql_path_not_file" "the SQL path must refer to a regular file")
    refuse_if (ltb max_sql_bytes metadata.len)
        (app_error usage "sql_file_too_large" "the SQL file exceeds the 1 MiB contract limit")
    raw ←
        ask_or (Effect.read_text path) (λ t. S.read_to_string t path)
          (app_error io "sql_file_not_utf8" "the SQL file must be valid UTF-8")
    lift (analyze_sql S raw)
