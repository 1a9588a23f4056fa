-- ===== src/Cli.antt =====
-- The commands of src/main.rs and the exit code of the process. The arguments are parsed already.
pub mod Args
pub mod Brief
pub mod Answers
pub mod Exit
pub mod Looking
use dmlpact.Base.{ℕ, ◌^◌, ltb, Bool, true, false, if◌then◌else◌}
use dmlpact.Error.{AppError, AppResult, ok, err, app_error, exit_code, error_document, ErrorClass}
use dmlpact.Model.{ReceiptState, Document, SchemaDocument, same, ReceiptState-discrete}
use dmlpact.System.{System, Effect}
use dmlpact.System.Monad.{M, ◌>>=◌, ◌>>◌, pure, lift, perform, attempt, branch, match_result}
use dmlpact.Receipt.Verify.{verify_receipt}
use dmlpact.Engine.Apply.{apply_plan}
use dmlpact.Engine.Planning.{create_plan}
use dmlpact.Engine.Reports.{lint_sql, inspect_table}
use dmlpact.Cli.Args.{database_options, PlanArgs, ApplyArgs, ReceiptCommand, Command, Parsed}
use dmlpact.Cli.Brief.{capabilities, contract}

unfoldable pub duration_ms : ℕ → AppResult ℕ
duration_ms millis =
    if ltb millis (2 ^ 64)
    then ok millis
    else err (
        app_error ErrorClass.usage "duration_out_of_range"
          "the duration is outside the supported range")

-- `if result.state == ReceiptState::Uncertain`.
unfoldable pub apply_code : ReceiptState → ℕ
unfolding exit_code ReceiptState-discrete
apply_code state =
    if same ReceiptState-discrete state ReceiptState.uncertain
    then exit_code ErrorClass.contract
    else 0

-- How a process ends: with an exit code, or with a panic, whose code is Rust's own.
pub data Ending : Type 0 where
  code : ℕ → Ending
  panicked : Ending

-- `print!` and `clap_complete::generate` panic if standard output does not take their text.
unfoldable pub exit_after : Bool → Ending
exit_after true = Ending.code 0
exit_after false = Ending.panicked

abbrev pub stdout_write_failed : AppError
stdout_write_failed =
    app_error ErrorClass.io "stdout_write_failed" "could not write the command result"

abbrev pub cli_arguments_invalid : AppError
cli_arguments_invalid =
    app_error ErrorClass.usage "cli_arguments_invalid"
      "invalid command-line arguments; run dmlpact --help"

module _ (S : System) where
  unfoldable pub emit_json : Document → M (Unit {0})
  emit_json value = do
    attempt (Effect.print value) (λ t. S.write_result t value) stdout_write_failed
    attempt Effect.print_newline S.write_newline stdout_write_failed

  unfoldable pub emit_schema : SchemaDocument → M (Unit {0})
  unfolding emit_json
  emit_schema document = emit_json (Document.schema_of document)

  -- The failures to write the error are ignored.
  unfoldable pub emit_error : AppError → M (Unit {0})
  unfolding error_document
  emit_error error = do
    written ←
        perform (Effect.report (error_document error)) (λ t. S.write_error t (error_document error))
    branch written (perform Effect.report_newline S.write_error_newline >>= λ _. pure tt) (pure tt)

  unfoldable pub run_apply : ApplyArgs → M Ending
  unfolding apply_plan apply_code emit_json database_options
  run_apply args = do
    result ← apply_plan S (record {
      sql_path = args.sql;
      plan_path = args.plan;
      receipt_path = args.receipt;
      database = database_options args.database;
    })
    emit_json (Document.applied result)
    pure (Ending.code (apply_code result.state))

  unfoldable pub run_plan : PlanArgs → M Ending
  unfolding duration_ms create_plan emit_json database_options
  run_plan args = do
    statement_timeout_ms ← lift (duration_ms args.statement_timeout)
    lock_timeout_ms ← lift (duration_ms args.lock_timeout)
    lifetime_ms ← lift (duration_ms args.valid_for)
    plan ← create_plan S (record {
      sql_path = args.sql;
      output_path = args.out;
      database = database_options args.database;
      limits = record {
        max_rows = args.max_rows;
        statement_timeout_ms = statement_timeout_ms;
        lock_timeout_ms = lock_timeout_ms;
      };
      lifetime_ms = lifetime_ms;
      allow_triggers = args.allow_triggers;
      allow_row_security = args.allow_row_security;
    })
    emit_json (Document.sealed_plan plan)
    pure (Ending.code 0)

  unfoldable pub run : Command → M Ending
  unfolding lint_sql inspect_table run_plan run_apply verify_receipt emit_json emit_schema
      database_options capabilities contract exit_after
  run (Command.lint sql) = do
    report ← lint_sql S sql
    emit_json (Document.lint_report report)
    pure (Ending.code 0)
  run (Command.inspect table database) = do
    report ← inspect_table S table (database_options database)
    emit_json (Document.inspect_report report)
    pure (Ending.code 0)
  run (Command.plan args) = run_plan args
  run (Command.apply args) = run_apply args
  run (Command.receipt (ReceiptCommand.verify path)) = do
    report ← verify_receipt S path
    emit_json (Document.verification report)
    pure (Ending.code 0)
  run (Command.schema document) = do emit_schema document; pure (Ending.code 0)
  run Command.capabilities = do
    emit_json (Document.described (capabilities S))
    pure (Ending.code 0)
  run Command.contract = do emit_json (Document.brief (contract S)); pure (Ending.code 0)
  run (Command.completions shell) = do
    written ← perform (Effect.print_completions shell) (λ t. S.write_completions t shell)
    pure (exit_after written)

  -- How the process ends.
  unfoldable pub main : Parsed → M Ending
  unfolding run emit_error exit_code exit_after
  main (Parsed.command command) =
      match_result (run command)
        (λ error. emit_error error >> pure (Ending.code (exit_code error.class))) pure
  main (Parsed.display text) = do
    written ← perform (Effect.print_text text) (λ t. S.write_text t text)
    pure (exit_after written)
  main Parsed.invalid = do
    emit_error cli_arguments_invalid
    pure (Ending.code (exit_code cli_arguments_invalid.class))
