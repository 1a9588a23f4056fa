-- ===== src/Tests/Applying.antt =====
-- The theorems on `apply_plan` and `create_plan` at the runs of the small outside.
use dmlpact.Base.{Bool, true, false, some, [], ◌∷◌, ◌≡◌, ◌⊎◌, refl, inr, ◌≤◌}
use dmlpact.Base.Text.{Bytes}
use dmlpact.Error.{AppError, AppResult, ok, err, exit_code, app_error, contract}
use dmlpact.Model.{Plan, ReceiptState, ApplyResult}
use dmlpact.System.{System, Effect, Trace, Executed, affected}
use dmlpact.System.Monad.{
  ◌>>=◌, ask_or, attempt, lift, pure, perform, refuse_if, branch, match_result, map_err,
}
use dmlpact.System.Rules.{changes, Reaches}
use dmlpact.Sql.File.{read_and_analyze}
use dmlpact.Sql.Forms.{AnalyzedSql}
use dmlpact.Receipt.Journal.{ReceiptJournal, create}
use dmlpact.Receipt.Opening.{Opened, create-Opened}
use dmlpact.Engine.Planning.{create_plan}
use dmlpact.Engine.Planning.Made.{Planned}
use dmlpact.Engine.Planning.Making.{create_plan-Planned}
use dmlpact.Engine.Planning.Ready.{IsReady, create_plan-IsReady}
use dmlpact.Engine.Apply.{apply_plan, apply_after_receipt}
use dmlpact.Engine.Apply.Trail.{statements, commits}
use dmlpact.Engine.Apply.Outcome.{IsEnd, Outcome, WasSent}
use dmlpact.Engine.Apply.Safety.{
  Sends, apply_after_receipt-statements, apply_after_receipt-committed,
  apply_after_receipt-uncommitted, apply_after_receipt-error,
}
use dmlpact.Engine.Apply.Order.{Commits, apply_plan-committed}
use dmlpact.Tests.World.{
  plan_options, apply_options, database_options, no_event, no_result, no_analyzed,
}
use dmlpact.Tests.Runs.{planner, made_plan, applier, applied, value_of}

abbrev journal : ReceiptJournal
journal = record { path = "receipt.ndjson"; prepared = no_event }

abbrev plan_outcome : AppResult Plan × Trace
plan_outcome = create_plan planner plan_options []

-- The analysed text.
abbrev update_analyzed : AnalyzedSql
update_analyzed = value_of no_analyzed (read_and_analyze planner "a.sql" [])

-- A run from an open receipt.
abbrev from_receipt : Executed → Bool → AppResult ApplyResult × Trace
from_receipt executed commits =
    apply_after_receipt (applier executed commits) journal made_plan update_analyzed
      database_options []

apply_plan-committed_example :
    Commits
      (applier (affected 2) true)
      apply_options
      []
      (changes (applied (affected 2) true).1)
      (value_of no_result (applied (affected 2) true))
unfolding create_plan apply_plan ◌>>=◌ ask_or attempt lift pure perform refuse_if branch
    match_result map_err
apply_plan-committed_example =
    apply_plan-committed (applier (affected 2) true) apply_options [] (applied (affected 2) true).1
      (value_of no_result (applied (affected 2) true)) refl refl

apply_after_receipt-statements_example :
    Sends
      (applier (affected 2) true)
      journal
      made_plan
      update_analyzed
      []
      (from_receipt (affected 2) true)
apply_after_receipt-statements_example =
    apply_after_receipt-statements (applier (affected 2) true) journal made_plan update_analyzed
      database_options []

abbrev committed_out : AppResult ApplyResult × Trace
committed_out = from_receipt (affected 2) true

apply_after_receipt-committed_example :
    ((value_of no_result committed_out).affected_rows ≡ some 2)
    × (2 ≤ 10)
    × WasSent (applier (affected 2) true) journal made_plan update_analyzed (affected 2)
    × ((bytes : Bytes) × IsEnd
          (applier (affected 2) true)
          journal
          ReceiptState.committed
          (value_of no_result committed_out)
          bytes
        × (changes committed_out.1
            ≡ Effect.write_file "receipt.ndjson" bytes true
              ∷ Effect.commit true
              ∷ Effect.execute update_analyzed.normalized (some 2)
              ∷ []))
unfolding create_plan read_and_analyze apply_after_receipt ◌>>=◌ ask_or attempt lift pure perform
    refuse_if branch match_result map_err
apply_after_receipt-committed_example =
    apply_after_receipt-committed (applier (affected 2) true) journal made_plan update_analyzed
      database_options [] committed_out.1 (value_of no_result committed_out) refl refl

-- The outside in which the terminal event cannot be written.
abbrev full_disk : System
full_disk = record (applier (affected 2) true) { write_all_and_sync = λ _ _ _. false }

abbrev on_full_disk : AppResult ApplyResult × Trace
on_full_disk = apply_after_receipt full_disk journal made_plan update_analyzed database_options []

abbrev no_error : AppError
no_error = app_error contract "" ""

abbrev error_of {ℓ} : {A : Type ℓ} → AppResult A × Trace → AppError
error_of (ok x, t) = no_error
error_of (err e, t) = e

apply_after_receipt-error_example :
    (commits on_full_disk.1 ≡ [])
    ⊎ ((commits on_full_disk.1 ≡ false ∷ [])
        × (exit_code (error_of on_full_disk).class ≡ 5)
        × ((error_of on_full_disk).code ≡ "commit_receipt_finalization_uncertain"))
    ⊎ ((commits on_full_disk.1 ≡ true ∷ [])
        × (exit_code (error_of on_full_disk).class ≡ 5)
        × ((error_of on_full_disk).code ≡ "committed_receipt_finalization_uncertain"))
unfolding create_plan read_and_analyze apply_after_receipt ◌>>=◌ ask_or attempt lift pure perform
    refuse_if branch match_result map_err
apply_after_receipt-error_example =
    apply_after_receipt-error full_disk journal made_plan update_analyzed database_options []
      on_full_disk.1 (error_of on_full_disk) refl

apply_after_receipt-uncommitted_example : commits (from_receipt (affected 3) true).1 ≡ []
unfolding create_plan read_and_analyze apply_after_receipt ◌>>=◌ ask_or attempt lift pure perform
    refuse_if branch match_result map_err
apply_after_receipt-uncommitted_example =
    apply_after_receipt-uncommitted (applier (affected 3) true) journal made_plan update_analyzed
      database_options [] (from_receipt (affected 3) true).1
      (value_of no_result (from_receipt (affected 3) true)) refl (inr refl)

create_plan-Planned_example : Planned planner plan_options [] plan_outcome
create_plan-Planned_example = create_plan-Planned planner plan_options []

create_plan-IsReady_example :
    IsReady planner plan_options made_plan × (statements plan_outcome.1 ≡ [])
unfolding create_plan ◌>>=◌ ask_or attempt lift pure perform refuse_if branch match_result map_err
create_plan-IsReady_example =
    create_plan-IsReady planner plan_options [] plan_outcome.1 made_plan refl

create-Opened_example :
    Reaches (Opened planner "r" made_plan "f" []) (create planner "r" made_plan "f") []
create-Opened_example = create-Opened planner "r" made_plan "f" []
