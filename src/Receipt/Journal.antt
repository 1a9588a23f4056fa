-- ===== src/Receipt/Journal.antt =====
-- `ReceiptJournal` of src/receipt.rs: a new file with a prepared event, and one terminal event.
use dmlpact.Base.{String, not, [], ◌∷◌, ◌++◌}
use dmlpact.Base.Text.{as_bytes}
use dmlpact.Error.{app_error, io}
use dmlpact.Error.Pure.{ok_or}
use dmlpact.Model.{Plan, ReceiptState, ReceiptResult, ReceiptEvent, is_final}
use dmlpact.System.{System, Effect}
use dmlpact.System.Monad.{M, ◌>>=◌, ◌>>◌, pure, lift, attempt, refuse_if}
use dmlpact.Integrity.{unix_ms}
use dmlpact.Receipt.Version.{contract}
use dmlpact.Receipt.Seal.{verified_plan_sha256, seal_event, prepared_event, final_event}

-- The open file is its path.
pub record ReceiptJournal : Type 0 where
  pub path : String
  pub prepared : ReceiptEvent

module _ (S : System) where
  unfoldable pub write_event : String → ReceiptEvent → M (Unit {0})
  unfolding as_bytes
  write_event path event = do
    text ← lift (
        ok_or (S.event_json event)
          (contract "receipt_serialization_failed" "a receipt event could not be serialized"))
    let bytes = as_bytes text ++ (10 ∷ [])
    attempt (Effect.write_file path bytes) (λ t. S.write_all_and_sync t path bytes)
        (app_error io "receipt_write_failed" "the receipt event could not be durably written")

  unfoldable pub create : String → Plan → String → M ReceiptJournal
  unfolding verified_plan_sha256 unix_ms prepared_event seal_event write_event
  create path plan sql_file_sha256 = do
    plan_sha256 ← lift (verified_plan_sha256 S plan)
    timestamp ← unix_ms S
    prepared ← lift (seal_event S (prepared_event S plan_sha256 sql_file_sha256 timestamp))
    attempt (Effect.create_file path) (λ t. S.create_new t path)
        (app_error io "receipt_create_failed"
          "the receipt path must be new, writable, and not a symlink")
    write_event path prepared
    pure (record { path = path; prepared = prepared })

  unfoldable pub finalize : ReceiptJournal → ReceiptState → ReceiptResult → M ReceiptEvent
  unfolding unix_ms final_event seal_event write_event is_final
  finalize journal state result = do
    refuse_if (not (is_final state))
        (contract "receipt_final_state_invalid" "a receipt must be finalized with a terminal state")
    timestamp ← unix_ms S
    event ← lift (seal_event S (final_event S journal.prepared timestamp state result))
    write_event journal.path event
    pure event
