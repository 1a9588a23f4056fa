-- ===== src/Engine/Apply.antt =====
-- `apply_plan` of src/engine.rs: the receipt first, then every check again under the table lock, and
-- the statement last. `apply_after_receipt` is cut at its four stages, each the end of the one
-- before.
pub mod Outcome
pub mod Ending
pub mod Execution
pub mod Checks
pub mod Trail
pub mod Safety
pub mod Order
pub mod Progress
use dmlpact.Base.{ℕ, String, ◌<>◌, Bool, true, false, not, ◌||◌, Option, none, some, ltb, ◌==◌}
use dmlpact.Base.{text_eq, if◌then◌else◌}
use dmlpact.Error.{AppError, app_error, contract}
use dmlpact.Model.{
  Plan, DatabaseIdentity, TransportPolicy, tls_required, insecure_localhost, ReceiptState,
  ApplyResult, differ, TransportPolicy-discrete, DatabaseIdentity-discrete,
}
use dmlpact.System.{System, Effect, Executed, affected, failed}
use dmlpact.System.Monad.{M, ◌>>=◌, ◌>>◌, lift, attempt, refuse_if, match_result, branch, perform}
use dmlpact.Integrity.{unix_ms}
use dmlpact.Db.Names.{canonical_table, database_error}
use dmlpact.Db.Connect.{ConnectedDatabase, connect_database}
use dmlpact.Db.Evidence.{
  database_identity, table_evidence, table_schema_sha256, apply_local_timeouts,
}
use dmlpact.Db.Policy.{enforce_table_policy}
use dmlpact.Sql.Forms.{AnalyzedSql}
use dmlpact.Sql.File.{read_and_analyze}
use dmlpact.Receipt.PlanFile.{read_plan}
use dmlpact.Receipt.Journal.{ReceiptJournal, create}
use dmlpact.Engine.Limits.{validate_limits}
use dmlpact.Engine.Binding.{validate_plan_binding}
use dmlpact.Engine.Target.{target_count, target_set_sha256}
use dmlpact.Engine.Finish.{
  finalizer, receipt_result, finish, finish_refused, finish_committed, finish_uncertain,
}

pub record DatabaseOptions : Type 0 where
  pub environment_name : String
  pub allow_insecure_localhost : Bool

pub record ApplyOptions : Type 0 where
  pub sql_path : String
  pub plan_path : String
  pub receipt_path : String
  pub database : DatabaseOptions

abbrev pub lock_query : Plan → String
lock_query plan =
    "LOCK TABLE " <> (plan.preconditions.canonical_table <> " IN SHARE ROW EXCLUSIVE MODE")

abbrev pub requested_transport : DatabaseOptions → TransportPolicy
requested_transport options =
    if options.allow_insecure_localhost then insecure_localhost else tls_required

unfoldable pub executed_rows : Executed → Option ℕ
executed_rows (affected n) = some n
executed_rows (failed _) = none

module _ (S : System) where
  -- `transaction.execute`.
  unfoldable pub run_statement : String → M Executed
  unfolding executed_rows
  run_statement sql =
      perform (λ r. Effect.execute sql (executed_rows r)) (λ t. S.execute_statement t sql)

  -- `transaction.rollback().ok()`.
  unfoldable pub roll_back : M (Unit {0})
  roll_back = perform (λ _. Effect.rollback) (λ _. tt)

  module _ (journal : ReceiptJournal) (plan : Plan) (analyzed : AnalyzedSql) where
    -- From the number of changed rows on.
    unfoldable pub apply_affected : DatabaseIdentity → String → ℕ → ℕ → M ApplyResult
    unfolding roll_back finish finish_committed finish_uncertain
    apply_affected identity schema_hash count rows =
        branch (not (rows == count))
          (do
            roll_back
            finish (finalizer S journal) ReceiptState.rolled_back (
                receipt_result (some rows) "affected_rows_mismatch" none (some identity)
                  (some schema_hash)))
          (match_result (attempt Effect.commit S.commit_transaction (database_error "commit"))
            (λ _. finish_uncertain (finalizer S journal) (
              receipt_result (some rows) "commit_outcome_uncertain" none (some identity)
                (some schema_hash)))
            (λ _.
              finish_committed (finalizer S journal)
                (receipt_result (some rows) "applied" none (some identity) (some schema_hash))))

    unfoldable pub apply_executed : DatabaseIdentity → String → ℕ → Executed → M ApplyResult
    unfolding apply_affected roll_back finish
    apply_executed identity schema_hash count (affected rows) =
        apply_affected identity schema_hash count rows
    apply_executed identity schema_hash count (failed state_code) = do
      roll_back
      finish (finalizer S journal) ReceiptState.rolled_back (
          receipt_result none "statement_execution_failed" state_code (some identity)
            (some schema_hash))

    unfoldable pub apply_statement : DatabaseIdentity → String → ℕ → M ApplyResult
    unfolding run_statement apply_executed
    apply_statement identity schema_hash count = do
      executed ← run_statement analyzed.normalized
      apply_executed identity schema_hash count executed

    -- From the count of the target rows on.
    unfoldable pub apply_matched : DatabaseIdentity → String → M ApplyResult
    unfolding target_count target_set_sha256 apply_statement finish_refused
    apply_matched identity schema_hash =
        let refused =
          λ (reason : String). finish_refused S journal reason (some identity) (some schema_hash) in
        match_result (target_count S analyzed) (λ _. refused "target_count_failed")
          λ count.
            branch (not (count == plan.preconditions.target_count)) (refused "target_count_drift") (
              branch (ltb plan.limits.max_rows count) (refused "row_budget_exceeded") (
                match_result (target_set_sha256 S analyzed count)
                  (λ (error : AppError). refused error.code)
                  λ target_set_hash.
                    branch (not (text_eq target_set_hash plan.preconditions.target_set_sha256))
                      (refused "target_set_drift") (apply_statement identity schema_hash count)))

    -- From the evidence on the table on.
    unfoldable pub apply_identified : DatabaseIdentity → M ApplyResult
    unfolding table_evidence table_schema_sha256 canonical_table enforce_table_policy apply_matched
        finish_refused
    apply_identified identity =
        match_result (table_evidence S analyzed.requested_table)
          (λ (error : AppError). finish_refused S journal error.code (some identity) none)
          λ evidence.
            match_result (lift (table_schema_sha256 S evidence))
              (λ _. finish_refused S journal "table_schema_hash_failed" (some identity) none)
              λ schema_hash.
                branch
                  (not (text_eq (canonical_table evidence) plan.preconditions.canonical_table)
                    || not (text_eq schema_hash plan.preconditions.table_schema_sha256))
                  (finish_refused S journal "table_schema_drift" (some identity) (some schema_hash))
                  (match_result
                    (lift (
                      enforce_table_policy evidence analyzed.kind plan.allow_triggers
                        plan.allow_row_security))
                    (λ (error : AppError).
                      finish_refused S journal error.code (some identity) (some schema_hash))
                    λ _. apply_matched identity schema_hash)

    -- From the table lock on.
    unfoldable pub apply_locked : String → M ApplyResult
    unfolding database_identity apply_identified finish_refused DatabaseIdentity-discrete
    apply_locked endpoint_sha256 =
        match_result
          (attempt (Effect.batch (lock_query plan)) (λ t. S.batch_execute t (lock_query plan))
            (database_error "table_lock_failed"))
          (λ _. finish_refused S journal "table_lock_failed" none none)
          λ _.
            match_result (database_identity S endpoint_sha256)
              (λ _. finish_refused S journal "identity_query_failed" none none)
              λ identity.
                branch (differ DatabaseIdentity-discrete identity plan.preconditions.database)
                  (finish_refused S journal "database_identity_drift" (some identity) none)
                  (apply_identified identity)

    -- From the connection on.
    unfoldable pub apply_connected : ConnectedDatabase → M ApplyResult
    unfolding apply_local_timeouts apply_locked finish_refused TransportPolicy-discrete
    apply_connected database =
        branch (differ TransportPolicy-discrete database.transport_policy plan.transport_policy)
          (finish_refused S journal "transport_policy_drift" none none)
          (match_result
            (attempt (Effect.begin false) (λ t. S.begin_transaction t false)
              (database_error "apply_transaction_failed"))
            (λ _. finish_refused S journal "apply_transaction_failed" none none)
            λ _.
              match_result (apply_local_timeouts S plan.limits)
                (λ _. finish_refused S journal "timeout_configuration_failed" none none)
                λ _. apply_locked database.endpoint_sha256)

    unfoldable pub apply_after_receipt : DatabaseOptions → M ApplyResult
    unfolding connect_database apply_connected finish finish_refused TransportPolicy-discrete
    apply_after_receipt options =
        branch (differ TransportPolicy-discrete (requested_transport options) plan.transport_policy)
          (finish_refused S journal "transport_policy_drift" none none)
          (match_result
            (connect_database S options.environment_name options.allow_insecure_localhost)
            (λ (error : AppError).
              finish (finalizer S journal) ReceiptState.refused
                (receipt_result none error.code none none none))
            apply_connected)

  unfoldable pub apply_plan : ApplyOptions → M ApplyResult
  unfolding read_plan validate_limits read_and_analyze validate_plan_binding unix_ms create
      apply_after_receipt
  apply_plan options = do
    plan ← read_plan S options.plan_path
    lift (validate_limits plan.limits)
    analyzed ← read_and_analyze S options.sql_path
    lift (validate_plan_binding plan analyzed)
    now ← unix_ms S
    refuse_if (ltb plan.expires_at_unix_ms now)
        (app_error contract "plan_expired" "the plan has expired; create a fresh plan")
    journal ← create S options.receipt_path plan analyzed.sql_file_sha256
    apply_after_receipt journal plan analyzed options.database
