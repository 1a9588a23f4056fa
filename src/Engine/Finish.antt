-- ===== src/Engine/Finish.antt =====
-- The end of a receipt in src/engine.rs. It is written for any finalizer; the one outside
-- the tests is the journal.
use dmlpact.Base.{ℕ, String, Option, none}
use dmlpact.Error.{app_error, contract}
use dmlpact.Model.{DatabaseIdentity, ReceiptState, ReceiptResult, ReceiptEvent, ApplyResult}
use dmlpact.System.{System}
use dmlpact.System.Monad.{M, ◌>>=◌, pure, map_err}
use dmlpact.Receipt.Journal.{ReceiptJournal, finalize}

-- `ReceiptResult { .. }`, the fields in the source's order.
abbrev pub receipt_result :
    Option ℕ → String → Option String → Option DatabaseIdentity → Option String → ReceiptResult
receipt_result affected_rows reason_code sqlstate database table_schema_sha256 = record {
  affected_rows = affected_rows;
  reason_code = reason_code;
  sqlstate = sqlstate;
  database = database;
  table_schema_sha256 = table_schema_sha256;
}

-- `trait ReceiptFinalizer`: what the end of a receipt needs to know of it.
pub record ReceiptFinalizer : Type 0 where
  pub path : String
  pub receipt_id : String
  pub finalize : ReceiptState → ReceiptResult → M ReceiptEvent

-- `impl ReceiptFinalizer for ReceiptJournal`.
abbrev pub finalizer : System → ReceiptJournal → ReceiptFinalizer
finalizer S journal = record {
  path = journal.path;
  receipt_id = journal.prepared.receipt_id;
  finalize = λ state result. finalize S journal state result;
}

-- The result that `finish` returns.
unfoldable pub apply_result :
    ReceiptFinalizer → ReceiptState → ReceiptResult → ReceiptEvent → ApplyResult
apply_result journal state result event = record {
  schema_version = "dmlpact.apply-result.v1";
  receipt_id = journal.receipt_id;
  state = state;
  plan_sha256 = event.plan_sha256;
  affected_rows = result.affected_rows;
  reason_code = result.reason_code;
  receipt_path = journal.path;
}

unfoldable pub finish : ReceiptFinalizer → ReceiptState → ReceiptResult → M ApplyResult
unfolding apply_result
finish journal state result = do
  event ← journal.finalize state result
  pure (apply_result journal state result event)

unfoldable pub finish_refused :
    System → ReceiptJournal → String → Option DatabaseIdentity → Option String → M ApplyResult
unfolding finish finalize
finish_refused S journal reason database table_schema_sha256 =
    finish (finalizer S journal) ReceiptState.refused
      (receipt_result none reason none database table_schema_sha256)

unfoldable pub finish_committed : ReceiptFinalizer → ReceiptResult → M ApplyResult
unfolding finish
finish_committed journal result = map_err (finish journal ReceiptState.committed result) (
    app_error contract "committed_receipt_finalization_uncertain"
      "the database commit succeeded, but durable terminal receipt publication could not be confirmed; do not retry the DML; verify the prepared receipt and reconcile it with the database")

unfoldable pub finish_uncertain : ReceiptFinalizer → ReceiptResult → M ApplyResult
unfolding finish
finish_uncertain journal result = map_err (finish journal ReceiptState.uncertain result) (
    app_error contract "commit_receipt_finalization_uncertain"
      "the database commit outcome and durable terminal receipt publication could not be confirmed; do not retry the DML; verify the prepared receipt and reconcile it with the database")
