-- ===== src/Receipt/Seal.antt =====
-- Seals in src/receipt.rs: a plan and an event carry the hash of their other fields.
use dmlpact.Base.{ℕ, String, ◌<>◌, not, ◌||◌, none, some, text_eq}
use dmlpact.Base.Text.{as_bytes, show}
use dmlpact.Error.{AppResult, ok}
use dmlpact.Error.Pure.{◌>>=◌, ◌>>◌, ok_or, refuse_if}
use dmlpact.Model.{
  Plan, plan_schema_version, ReceiptState, ReceiptResult, ReceiptEvent, receipt_schema_version,
}
use dmlpact.System.{System}
use dmlpact.Integrity.{sha256_bytes, sha256_json}
use dmlpact.Receipt.Version.{is_supported_artifact_tool_version, contract}

-- A plan without its seal, which is what the seal is the hash of.
abbrev pub unsigned : Plan → Plan
unsigned plan = record plan { plan_sha256 = none }

-- An event without its seal.
abbrev pub unsigned_event : ReceiptEvent → ReceiptEvent
unsigned_event event = record event { event_sha256 = none }

-- The comparison of a claimed hash with the hash of the contents.
unfoldable pub check_claim : String → String → String → String → AppResult String
check_claim code message claimed actual = do
  refuse_if (not (text_eq claimed actual)) (contract code message)
  ok actual

module _ (S : System) where
  unfoldable pub seal_plan : Plan → AppResult Plan
  unfolding sha256_json
  seal_plan plan = do
    hash ← sha256_json S (S.plan_json (unsigned plan))
    ok (record plan { plan_sha256 = some hash })

  unfoldable pub verified_plan_sha256 : Plan → AppResult String
  unfolding is_supported_artifact_tool_version sha256_json check_claim
  verified_plan_sha256 plan = do
    refuse_if
        (not (text_eq plan.schema_version plan_schema_version)
          || not (is_supported_artifact_tool_version S.tool_version plan.tool_version))
        (contract "plan_version_unsupported" "the plan schema or tool version is not supported")
    claimed ←
        ok_or plan.plan_sha256
          (contract "plan_hash_missing" "the plan does not contain its integrity hash")
    actual ← sha256_json S (S.plan_json (unsigned plan))
    check_claim "plan_hash_mismatch" "the plan integrity hash does not match its contents" claimed
        actual

  unfoldable pub event_sha256 : ReceiptEvent → AppResult String
  unfolding sha256_json
  event_sha256 event = sha256_json S (S.event_json (unsigned_event event))

  -- `event.event_sha256 = Some(event_sha256(&event)?)`.
  unfoldable pub seal_event : ReceiptEvent → AppResult ReceiptEvent
  unfolding event_sha256
  seal_event event = do hash ← event_sha256 event; ok (record event { event_sha256 = some hash })

  unfoldable pub validate_event : ReceiptEvent → AppResult (Unit {0})
  unfolding is_supported_artifact_tool_version event_sha256 check_claim
  validate_event event = do
    refuse_if
        (not (text_eq event.schema_version receipt_schema_version)
          || not (is_supported_artifact_tool_version S.tool_version event.tool_version))
        (contract "receipt_version_unsupported"
          "the receipt schema or tool version is not supported")
    claimed ←
        ok_or event.event_sha256
          (contract "receipt_event_hash_missing" "a receipt event is missing its integrity hash")
    actual ← event_sha256 event
    _ ←
        check_claim "receipt_event_hash_mismatch"
          "a receipt event integrity hash does not match its contents" claimed actual
    ok tt

  -- The prepared event, before its hash.
  unfoldable pub prepared_event : String → String → ℕ → ReceiptEvent
  unfolding sha256_bytes as_bytes show
  prepared_event plan_sha256 sql_file_sha256 timestamp = record {
    schema_version = receipt_schema_version;
    tool_version = S.tool_version;
    receipt_id =
        sha256_bytes S
          (as_bytes (plan_sha256 <> (":" <> (sql_file_sha256 <> (":" <> show timestamp)))));
    sequence = 1;
    timestamp_unix_ms = timestamp;
    plan_sha256 = plan_sha256;
    sql_file_sha256 = sql_file_sha256;
    previous_event_sha256 = none;
    state = ReceiptState.prepared;
    result = none;
    event_sha256 = none;
  }

  -- The terminal event, before its hash.
  unfoldable pub final_event : ReceiptEvent → ℕ → ReceiptState → ReceiptResult → ReceiptEvent
  final_event prepared timestamp state result = record {
    schema_version = receipt_schema_version;
    tool_version = S.tool_version;
    receipt_id = prepared.receipt_id;
    sequence = 2;
    timestamp_unix_ms = timestamp;
    plan_sha256 = prepared.plan_sha256;
    sql_file_sha256 = prepared.sql_file_sha256;
    previous_event_sha256 = prepared.event_sha256;
    state = state;
    result = some result;
    event_sha256 = none;
  }
