-- ===== src/Engine/Reports.antt =====
-- The two commands of src/engine.rs that only report: `lint_sql` and `inspect_table`.
use dmlpact.Base.{String, false, List, [], ◌∷◌, if◌then◌else◌}
use dmlpact.Model.{StatementKind, insert, same, StatementKind-discrete, LintReport, InspectReport}
use dmlpact.System.{System}
use dmlpact.System.Monad.{M, ◌>>=◌, ◌>>◌, pure, lift}
use dmlpact.Db.Connect.{connect_database}
use dmlpact.Db.Evidence.{database_identity, table_evidence, table_schema_sha256}
use dmlpact.Sql.Forms.{AnalyzedSql}
use dmlpact.Sql.File.{read_and_analyze}
use dmlpact.Engine.Limits.{enforce_postgres_version}
use dmlpact.Engine.Apply.{DatabaseOptions}

-- The checks that a statement of this kind has passed.
policy_checks : StatementKind → List String
unfolding StatementKind-discrete
policy_checks kind =
    "exactly_one_statement"
    ∷ "single_named_table"
    ∷ "no_functions_subqueries_or_placeholders"
    ∷ "no_returning_joins_or_auxiliary_tables"
    ∷ (if same StatementKind-discrete kind insert
        then "explicit_values_rows"
        else "explicit_where_clause")
    ∷ []

module _ (S : System) where
  lint_report : AnalyzedSql → LintReport
  unfolding policy_checks
  lint_report analyzed = record {
    schema_version = "dmlpact.lint.v1";
    tool_version = S.tool_version;
    statement_kind = analyzed.kind;
    requested_table = analyzed.requested_table;
    sql_file_sha256 = analyzed.sql_file_sha256;
    normalized_sql_sha256 = analyzed.normalized_sql_sha256;
    generated_target_count = analyzed.inserted_rows;
    count_query_sha256 = analyzed.count_query_sha256;
    target_query_sha256 = analyzed.target_query_sha256;
    policy_checks = policy_checks analyzed.kind;
    executable_sql_emitted = false;
  }

  unfoldable pub lint_sql : String → M LintReport
  unfolding read_and_analyze lint_report
  lint_sql path = do analyzed ← read_and_analyze S path; pure (lint_report analyzed)

  unfoldable pub inspect_table : String → DatabaseOptions → M InspectReport
  unfolding connect_database database_identity enforce_postgres_version table_evidence
      table_schema_sha256
  inspect_table requested_table options = do
    database ← connect_database S options.environment_name options.allow_insecure_localhost
    identity ← database_identity S database.endpoint_sha256
    lift (enforce_postgres_version identity)
    evidence ← table_evidence S requested_table
    schema_hash ← lift (table_schema_sha256 S evidence)
    pure (record {
      schema_version = "dmlpact.inspect.v1";
      tool_version = S.tool_version;
      database = identity;
      table_schema_sha256 = schema_hash;
      table = evidence;
      transport_policy = database.transport_policy;
    })
