-- ===== src/Receipt/Verify.antt =====
-- `verify_receipt` of src/receipt.rs: the file of a receipt, read and checked.
pub mod Reread
use dmlpact.Base.{String, not, ◌||◌, ltb}
use dmlpact.Error.{app_error, io}
use dmlpact.Model.{ReceiptVerification}
use dmlpact.System.{System, Effect}
use dmlpact.System.Monad.{M, ◌>>=◌, ◌>>◌, lift, ask_or, refuse_if}
use dmlpact.Receipt.Version.{max_receipt_bytes, contract}
use dmlpact.Receipt.Check.{verify_text}

module _ (S : System) where
  unfoldable pub verify_receipt : String → M ReceiptVerification
  unfolding verify_text
  verify_receipt path = do
    metadata ←
        ask_or (Effect.read_metadata path) (λ t. S.metadata t path)
          (app_error io "receipt_unreadable" "the receipt file could not be read")
    refuse_if (not metadata.is_file || ltb max_receipt_bytes metadata.len) (
        contract "receipt_file_invalid"
          "the receipt must be a regular NDJSON file no larger than 2 MiB")
    content ←
        ask_or (Effect.read_text path) (λ t. S.read_to_string t path)
          (contract "receipt_not_utf8" "the receipt must be valid UTF-8")
    lift (verify_text S content)
