-- ===== src/Engine/Binding.antt =====
-- `validate_plan_binding` of src/engine.rs: a plan belongs to exactly one SQL text.
use dmlpact.Base.{Bool, not, ◌||◌, text_eq, ltb}
use dmlpact.Error.{AppResult, ok, app_error, contract}
use dmlpact.Error.Pure.{◌>>◌, refuse_if}
use dmlpact.Model.{Plan, differ, StatementKind-discrete, Text_option-discrete}
use dmlpact.Sql.Forms.{AnalyzedSql}

unfoldable pub sql_mismatch : Plan → AnalyzedSql → Bool
sql_mismatch plan analyzed =
    differ StatementKind-discrete plan.statement_kind analyzed.kind
    || not (text_eq plan.requested_table analyzed.requested_table)
    || not (text_eq plan.sql_file_sha256 analyzed.sql_file_sha256)
    || not (text_eq plan.normalized_sql_sha256 analyzed.normalized_sql_sha256)
    || differ Text_option-discrete plan.count_query_sha256 analyzed.count_query_sha256
    || differ Text_option-discrete plan.target_query_sha256 analyzed.target_query_sha256

unfoldable pub validate_plan_binding : Plan → AnalyzedSql → AppResult (Unit {0})
unfolding sql_mismatch StatementKind-discrete Text_option-discrete
validate_plan_binding plan analyzed = do
  refuse_if (sql_mismatch plan analyzed) (
      app_error contract "plan_sql_mismatch"
        "the SQL file does not exactly match the approved plan")
  refuse_if (ltb plan.limits.max_rows plan.preconditions.target_count)
      (app_error contract "plan_budget_invalid" "the plan target count exceeds its own row budget")
  ok tt
