-- ===== src/Receipt/PlanFile.antt =====
-- Plans on disk in src/receipt.rs: written to a new file, and read back.
use dmlpact.Base.{String, not, ◌||◌, [], ◌∷◌, ◌++◌, length, ltb}
use dmlpact.Base.Text.{as_bytes}
use dmlpact.Error.{app_error, io}
use dmlpact.Error.Pure.{ok_or}
use dmlpact.Model.{Plan}
use dmlpact.System.{System, Effect}
use dmlpact.System.Monad.{M, ◌>>=◌, ◌>>◌, pure, lift, attempt, ask_or, refuse_if}
use dmlpact.Receipt.Version.{max_plan_bytes, contract}
use dmlpact.Receipt.Seal.{verified_plan_sha256}

module _ (S : System) where
  unfoldable pub read_plan : String → M Plan
  unfolding verified_plan_sha256
  read_plan path = do
    metadata ←
        ask_or (Effect.read_metadata path) (λ t. S.metadata t path)
          (app_error io "plan_unreadable" "the plan file could not be read")
    refuse_if (not metadata.is_file || ltb max_plan_bytes metadata.len)
        (contract "plan_file_invalid" "the plan must be a regular JSON file no larger than 1 MiB")
    bytes ←
        ask_or (Effect.read_file path) (λ t. S.read t path)
          (app_error io "plan_unreadable" "the plan file could not be read")
    refuse_if (ltb max_plan_bytes (length bytes))
        (contract "plan_file_invalid" "the plan must be a regular JSON file no larger than 1 MiB")
    plan ← lift (
        ok_or (S.parse_plan bytes)
          (contract "plan_json_invalid" "the plan is not a valid strict dmlpact plan document"))
    _ ← lift (verified_plan_sha256 S plan)
    pure plan

  unfoldable pub write_plan_new : String → Plan → M (Unit {0})
  unfolding verified_plan_sha256 as_bytes
  write_plan_new path plan = do
    _ ← lift (verified_plan_sha256 S plan)
    text ← lift (
        ok_or (S.plan_json_pretty plan)
          (contract "plan_serialization_failed" "the plan could not be serialized"))
    let bytes = as_bytes text ++ (10 ∷ [])
    attempt (Effect.create_file path) (λ t. S.create_new t path)
        (app_error io "plan_create_failed"
          "the plan output path must be new, writable, and not a symlink")
    attempt (Effect.write_file path bytes) (λ t. S.write_all_and_sync t path bytes)
        (app_error io "plan_write_failed" "the plan could not be durably written")
