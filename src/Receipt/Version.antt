-- ===== src/Receipt/Version.antt =====
-- The limits and the supported artifact versions of src/receipt.rs.
use dmlpact.Base.{ℕ, String, Bool, ◌||◌, List, [], ◌∷◌, any, text_eq}
use dmlpact.Error.{AppError, app_error, contract as contract_class}

abbrev pub max_plan_bytes : ℕ
max_plan_bytes = 1_048_576

abbrev pub max_receipt_bytes : ℕ
max_receipt_bytes = 2_097_152

abbrev pub previously_supported_artifact_tool_versions : List String
previously_supported_artifact_tool_versions = "0.1.0" ∷ "0.2.0" ∷ []

-- The version of this program, then the version of the artifact.
unfoldable pub is_supported_artifact_tool_version : String → String → Bool
is_supported_artifact_tool_version own tool_version =
    text_eq tool_version own
    || any (text_eq tool_version) previously_supported_artifact_tool_versions

abbrev pub contract : String → String → AppError
contract code message = app_error contract_class code message
