-- ===== src/Receipt/Check.antt =====
-- The checks on the text of a receipt in src/receipt.rs: its lines, its events and their chain.
pub mod Backwards
pub mod Chain
pub mod Exact
pub mod Written
use dmlpact.Base.{ℕ, String, Bool, true, not, ◌||◌, ◌&&◌, ◌==◌, Option, none, some}
use dmlpact.Base.{List, [], ◌∷◌, any, length, ltb, is_some, is_none, leb, len, text_eq}
use dmlpact.Base.Text.{is_blank, lines}
use dmlpact.Error.{AppResult, ok, err}
use dmlpact.Error.Pure.{◌>>=◌, ◌>>◌, ok_or, refuse_if}
use dmlpact.Model.{
  ReceiptState, ReceiptEvent, ReceiptVerification, is_final, differ, ReceiptState-discrete,
  Text_option-discrete,
}
use dmlpact.System.{System}
use dmlpact.Receipt.Version.{max_receipt_bytes, contract}
use dmlpact.Receipt.Seal.{validate_event}

-- The two tests on the events, as the source writes them.
unfoldable pub prepared_invalid : ReceiptEvent → Bool
unfolding ReceiptState-discrete
prepared_invalid prepared =
    not (prepared.sequence == 1)
    || differ ReceiptState-discrete prepared.state ReceiptState.prepared
    || is_some prepared.previous_event_sha256
    || is_some prepared.result

unfoldable pub chain_invalid : ReceiptEvent → ReceiptEvent → Bool
unfolding is_final Text_option-discrete
chain_invalid prepared event =
    not (event.sequence == 2)
    || not (is_final event.state)
    || is_none event.result
    || not (text_eq event.receipt_id prepared.receipt_id)
    || not (text_eq event.plan_sha256 prepared.plan_sha256)
    || not (text_eq event.sql_file_sha256 prepared.sql_file_sha256)
    || differ Text_option-discrete event.previous_event_sha256 prepared.event_sha256
    || ltb event.timestamp_unix_ms prepared.timestamp_unix_ms

-- The report, from the events and the hash of the last one.
unfoldable pub verification : ReceiptEvent → ReceiptEvent → ℕ → String → ReceiptVerification
verification prepared last count final_hash = record {
  schema_version = "dmlpact.receipt-verification.v1";
  receipt_id = prepared.receipt_id;
  integrity_valid = true;
  complete = count == 2;
  event_count = count;
  final_state = last.state;
  plan_sha256 = prepared.plan_sha256;
  final_event_sha256 = final_hash;
}

-- The hash of the last event, with the report.
unfoldable pub report : ReceiptEvent → ReceiptEvent → ℕ → AppResult ReceiptVerification
unfolding verification
report prepared last count = do
  final_hash ←
      ok_or last.event_sha256
        (contract "receipt_event_hash_missing" "a receipt event is missing its integrity hash")
  ok (verification prepared last count final_hash)

module _ (S : System) where
  -- `lines.iter().map(serde_json::from_str).collect()`: the first failure ends it.
  unfoldable pub parse_events : List String → AppResult (List ReceiptEvent)
  parse_events [] = ok []
  parse_events (line ∷ rest) = do
    event ←
        ok_or (S.parse_event line)
          (contract "receipt_event_invalid" "a receipt event is not valid strict dmlpact NDJSON")
    events ← parse_events rest
    ok (event ∷ events)

  unfoldable pub check_prepared : ReceiptEvent → AppResult (Unit {0})
  unfolding validate_event prepared_invalid
  check_prepared prepared = do
    validate_event S prepared
    refuse_if (prepared_invalid prepared) (
        contract "receipt_prepared_invalid" "the first receipt event is not a valid prepared event")

  unfoldable pub check_final : ReceiptEvent → ReceiptEvent → AppResult (Unit {0})
  unfolding validate_event chain_invalid
  check_final prepared event = do
    validate_event S event
    refuse_if (chain_invalid prepared event) (
        contract "receipt_chain_invalid"
          "the final receipt event does not continue the prepared event")

  -- There are one or two events, by the test on the lines.
  unfoldable pub verify_events : List ReceiptEvent → AppResult ReceiptVerification
  unfolding check_prepared check_final report
  verify_events (prepared ∷ []) = do check_prepared prepared; report prepared prepared 1
  verify_events (prepared ∷ event ∷ _) = do
    check_prepared prepared
    check_final prepared event
    report prepared event 2
  verify_events [] = err (
      contract "receipt_event_count_invalid"
        "a receipt must contain one prepared event and at most one final event")

  unfoldable pub verify_text : String → AppResult ReceiptVerification
  unfolding lines is_blank parse_events verify_events
  verify_text content = do
    refuse_if (ltb max_receipt_bytes (len content)) (
        contract "receipt_file_invalid"
          "the receipt must be a regular NDJSON file no larger than 2 MiB")
    refuse_if
        (not (leb 1 (length (lines content)) && leb (length (lines content)) 2)
          || any is_blank (lines content))
        (contract "receipt_event_count_invalid"
          "a receipt must contain one prepared event and at most one final event")
    events ← parse_events (lines content)
    verify_events events
