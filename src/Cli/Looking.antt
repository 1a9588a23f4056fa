-- ===== src/Cli/Looking.antt =====
-- The commands of src/main.rs that only look.
use dmlpact.Base.{String, ◌≡◌}
use dmlpact.Error.{AppError}
use dmlpact.Model.{Document}
use dmlpact.System.{System, Trace}
use dmlpact.System.Rules.{changes, IsQuiet, pure-IsQuiet, quiet_rules}
use dmlpact.System.Looking.{looking_rules, match_result-IsQuiet}
use dmlpact.Db.Quiet.{connect_database-IsQuiet, database_identity-IsQuiet, table_evidence-IsQuiet}
use dmlpact.Receipt.Verify.{verify_receipt}
use dmlpact.Engine.Apply.{DatabaseOptions}
use dmlpact.Engine.Quiet.{read_and_analyze-IsQuiet}
use dmlpact.Engine.Reports.{lint_sql, inspect_table}
use dmlpact.Cli.Args.{ReceiptCommand, Command, Parsed}
use dmlpact.Cli.{emit_json, emit_schema, emit_error, run, main}

module _ (S : System) where
  pub emit_json-IsQuiet : (value : Document) → IsQuiet (emit_json S value)
  unfolding emit_json
  emit_json-IsQuiet value = search looking_rules

  pub emit_error-IsQuiet : (error : AppError) → IsQuiet (emit_error S error)
  unfolding emit_error
  emit_error-IsQuiet error = search looking_rules

  lint_sql-IsQuiet : (path : String) → IsQuiet (lint_sql S path)
  unfolding lint_sql
  lint_sql-IsQuiet path = search (quiet_rules, read_and_analyze-IsQuiet)

  inspect_table-IsQuiet :
      (table : String) (options : DatabaseOptions) → IsQuiet (inspect_table S table options)
  unfolding inspect_table
  inspect_table-IsQuiet table options =
      search
        (quiet_rules, connect_database-IsQuiet, database_identity-IsQuiet, table_evidence-IsQuiet)
        depth 12

  verify_receipt-IsQuiet : (path : String) → IsQuiet (verify_receipt S path)
  unfolding verify_receipt
  verify_receipt-IsQuiet path = search quiet_rules depth 12

  -- Every command but `plan` and `apply`.
  abbrev pub OnlyLooks : Command → Type 0
  OnlyLooks (Command.plan _) = ⊥
  OnlyLooks (Command.apply _) = ⊥
  OnlyLooks _ = Unit

  run-IsQuiet : (command : Command) → OnlyLooks command → IsQuiet (run S command)
  unfolding run emit_schema
  run-IsQuiet (Command.lint sql) looks = search (looking_rules, lint_sql-IsQuiet, emit_json-IsQuiet)
  run-IsQuiet (Command.inspect table database) looks =
      search (looking_rules, inspect_table-IsQuiet, emit_json-IsQuiet)
  run-IsQuiet (Command.plan args) looks = absurd looks
  run-IsQuiet (Command.apply args) looks = absurd looks
  run-IsQuiet (Command.receipt (ReceiptCommand.verify path)) looks =
      search (looking_rules, verify_receipt-IsQuiet, emit_json-IsQuiet)
  run-IsQuiet (Command.schema document) looks = search (looking_rules, emit_json-IsQuiet)
  run-IsQuiet Command.capabilities looks = search (looking_rules, emit_json-IsQuiet)
  run-IsQuiet Command.contract looks = search (looking_rules, emit_json-IsQuiet)
  run-IsQuiet (Command.completions shell) looks = search looking_rules

  -- A command that is not `plan` or `apply` sends no statement, ends no transaction and makes or
  -- writes no file, whatever it ends with.
  pub main-IsQuiet :
      (command : Command) (t : Trace)
      → OnlyLooks command
      → changes (main S (Parsed.command command) t).1 ≡ changes t
  unfolding main
  main-IsQuiet command t looks =
      let q : IsQuiet (main S (Parsed.command command)) =
        match_result-IsQuiet _ _ _ (run-IsQuiet command looks)
          (λ error. search (looking_rules, emit_error-IsQuiet)) pure-IsQuiet in
      q.quiet t
