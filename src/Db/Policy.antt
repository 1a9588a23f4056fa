-- ===== src/Db/Policy.antt =====
-- `enforce_table_policy` of src/db.rs.
pub mod Exact
pub mod Guards
use dmlpact.Base.{String, Bool, true, false, not, ◌&&◌, ◌||◌, text_eq, is_some}
use dmlpact.Base.{is_empty, any}
use dmlpact.Error.{AppResult, ok, app_error, policy}
use dmlpact.Error.Pure.{◌>>◌, refuse_if}
use dmlpact.Model.{
  StatementKind, insert, same, StatementKind-discrete, ColumnEvidence, TableEvidence,
}

-- A column whose value an INSERT may leave to the server.
unfoldable pub is_implicit : ColumnEvidence → Bool
is_implicit column =
    is_some column.default_expression
    || not (text_eq column.identity "")
    || not (text_eq column.generated "")

unfoldable pub enforce_table_policy :
    TableEvidence → StatementKind → Bool → Bool → AppResult (Unit {0})
unfolding is_implicit StatementKind-discrete
enforce_table_policy evidence statement_kind allow_triggers allow_row_security = do
  refuse_if (not (text_eq evidence.relation_kind "r") || not (text_eq evidence.persistence "p")) (
      app_error policy "relation_kind_denied"
        "v0.1 supports only ordinary permanent PostgreSQL tables")
  refuse_if (not (is_empty evidence.rewrite_rules))
      (app_error policy "rewrite_rules_denied" "tables with user rewrite rules are not supported")
  refuse_if (not (is_empty evidence.inheritance_relations)) (
      app_error policy "table_inheritance_denied"
        "tables participating in inheritance or partitioning are not supported")
  refuse_if (not (is_empty evidence.referential_actions)) (
      app_error policy "referential_actions_denied"
        "tables referenced by cascading or SET NULL/DEFAULT foreign keys are not supported")
  refuse_if (not allow_triggers && not (is_empty evidence.user_triggers)) (
      app_error policy "user_triggers_denied"
        "the table has user triggers; acknowledge them with --allow-triggers")
  refuse_if
      (not allow_row_security
        && (evidence.row_security
            || evidence.force_row_security
            || not (is_empty evidence.policies)))
      (app_error policy "row_security_denied"
        "the table uses row-level security; acknowledge it with --allow-row-security")
  refuse_if (same StatementKind-discrete statement_kind insert && any is_implicit evidence.columns)
      (app_error policy "insert_implicit_behavior_denied"
        "INSERT targets with defaults, identity columns, or generated columns are not supported")
  ok tt
