-- ===== src/Engine/Apply/Ending.antt =====
-- How a receipt ends: every path of the `finish` functions of src/engine.rs.
use dmlpact.Base.{ℕ, Option, ◌≡◌, refl, inl, inr}
use dmlpact.Base.{[]}
use dmlpact.Error.{AppError, AppResult, ok, err, ErrorClass}
use dmlpact.Model.{ReceiptState, ReceiptResult, ReceiptEvent, ApplyResult}
use dmlpact.System.{System, Trace}
use dmlpact.System.Monad.{pure, ◌>>=◌, map_err}
use dmlpact.System.Rules.{changes}
use dmlpact.Receipt.Journal.{ReceiptJournal, finalize}
use dmlpact.Receipt.Writing.{IsFinalLine, Wrote, finalize-Wrote}
use dmlpact.Engine.Finish.{finalizer, apply_result, finish, finish_committed, finish_uncertain}
use dmlpact.Engine.Apply.Outcome.{Finished, AnyError, NeedsReconciliation}

module _ (S : System) where
  finish_pair :
      (journal : ReceiptJournal) (state : ReceiptState) (result : ReceiptResult) (before : Trace)
      (p : AppResult ReceiptEvent × Trace)
      → Wrote (IsFinalLine S journal.prepared state result) journal.path before p
      → Finished S journal state result.affected_rows AnyError before (
          ◌>>=◌ (λ _. p) (λ event. pure (apply_result (finalizer S journal) state result event)) [])
  unfolding ◌>>=◌ pure apply_result
  finish_pair journal state result before (ok event, t) (bytes, line, w) = (
    refl,
    refl,
    refl,
    (bytes, record { result = result; same_rows = refl; same_reason = refl; line = line }, w),
  )
  finish_pair journal state result before (err e, t) (inl w) = (tt, inl w)
  finish_pair journal state result before (err e, t) (inr (bytes, _, w)) = (tt, inr (bytes, w))

  -- A receipt that is finished holds the state and the row count that it was finished with.
  pub finish-Finished :
      (journal : ReceiptJournal) (state : ReceiptState) (result : ReceiptResult) (before t : Trace)
      → changes t ≡ before
      → Finished S journal state result.affected_rows AnyError before
          (finish (finalizer S journal) state result t)
  unfolding finish ◌>>=◌
  finish-Finished journal state result before t same =
      finish_pair journal state result before (finalize S journal state result t)
        (finalize-Wrote S journal state result before t same).run

  map_err_pair :
      (journal : ReceiptJournal) (state : ReceiptState) (rows : Option ℕ) (before : Trace)
      (error : AppError) (p : AppResult ApplyResult × Trace)
      → error.class ≡ ErrorClass.contract
      → Finished S journal state rows AnyError before p
      → Finished S journal state rows
          (NeedsReconciliation error.code)
          before
          (map_err (λ _. p) error [])
  unfolding map_err
  map_err_pair journal state rows before error (ok r, t) c f = f
  map_err_pair journal state rows before error (err e, t) c (_, f) = ((c, refl), f)

  pub finish_committed-Finished :
      (journal : ReceiptJournal) (result : ReceiptResult) (before t : Trace)
      → changes t ≡ before
      → Finished S journal ReceiptState.committed result.affected_rows
          (NeedsReconciliation "committed_receipt_finalization_uncertain")
          before
          (finish_committed (finalizer S journal) result t)
  unfolding finish_committed map_err
  finish_committed-Finished journal result before t same =
      map_err_pair journal ReceiptState.committed result.affected_rows before _
        (finish (finalizer S journal) ReceiptState.committed result t) refl
        (finish-Finished journal ReceiptState.committed result before t same)

  pub finish_uncertain-Finished :
      (journal : ReceiptJournal) (result : ReceiptResult) (before t : Trace)
      → changes t ≡ before
      → Finished S journal ReceiptState.uncertain result.affected_rows
          (NeedsReconciliation "commit_receipt_finalization_uncertain")
          before
          (finish_uncertain (finalizer S journal) result t)
  unfolding finish_uncertain map_err
  finish_uncertain-Finished journal result before t same =
      map_err_pair journal ReceiptState.uncertain result.affected_rows before _
        (finish (finalizer S journal) ReceiptState.uncertain result t) refl
        (finish-Finished journal ReceiptState.uncertain result before t same)
