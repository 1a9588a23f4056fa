-- ===== src/Engine/Planning.antt =====
-- `create_plan` of src/engine.rs: a read-only transaction that gathers the preconditions, and a
-- sealed plan in a new file.
pub mod Gathering
pub mod Made
pub mod Making
pub mod Ready
use dmlpact.Base.{
  ℕ, ◌+◌, ◌^◌, String, ◌<>◌, Bool, true, false, ◌||◌, Option, none, some, length, ltb,
}
use dmlpact.Base.{if◌then◌else◌}
use dmlpact.Base.Text.{as_bytes, show}
use dmlpact.Error.{app_error, usage, budget}
use dmlpact.Error.Pure.{ok_or}
use dmlpact.Model.{
  Limits, Plan, PlanPreconditions, DatabaseIdentity, TableEvidence, plan_schema_version,
}
use dmlpact.System.{System, Effect}
use dmlpact.System.Monad.{M, ◌>>=◌, ◌>>◌, pure, lift, attempt, ask_or, refuse_if}
use dmlpact.Integrity.{sha256_bytes, sha256_json, unix_ms}
use dmlpact.Db.Names.{canonical_table, database_error}
use dmlpact.Db.Connect.{ConnectedDatabase, connect_database}
use dmlpact.Db.Evidence.{
  database_identity, table_evidence, table_schema_sha256, apply_local_timeouts,
}
use dmlpact.Db.Policy.{enforce_table_policy}
use dmlpact.Sql.Forms.{AnalyzedSql}
use dmlpact.Sql.File.{read_and_analyze}
use dmlpact.Receipt.Seal.{seal_plan}
use dmlpact.Receipt.PlanFile.{write_plan_new}
use dmlpact.Engine.Limits.{validate_limits, validate_lifetime, enforce_postgres_version}
use dmlpact.Engine.Target.{target_count, target_set_sha256}
use dmlpact.Engine.Apply.{DatabaseOptions}

pub record PlanOptions : Type 0 where
  pub sql_path : String
  pub output_path : String
  pub database : DatabaseOptions
  pub limits : Limits
  pub lifetime_ms : ℕ
  pub allow_triggers : Bool
  pub allow_row_security : Bool

-- What the transaction of `create_plan` has gathered.
pub record Gathered : Type 0 where
  pub identity : DatabaseIdentity
  pub evidence : TableEvidence
  pub schema_hash : String
  pub target_count : ℕ
  pub target_set_sha256 : String
  pub explain_sha256 : String

module _ (S : System) where
  unfoldable pub explain_sha256 : AnalyzedSql → M String
  unfolding sha256_json
  explain_sha256 analyzed = do
    let explain_query = "EXPLAIN (FORMAT JSON, COSTS TRUE, VERBOSE TRUE) " <> analyzed.normalized
    explain ←
        ask_or (Effect.query explain_query) (λ t. S.explain_row t explain_query)
          (database_error "explain_failed")
    lift (sha256_json S (S.json_text explain))

  -- From the start of the transaction to its commit.
  unfoldable pub gather : PlanOptions → AnalyzedSql → ConnectedDatabase → M Gathered
  unfolding apply_local_timeouts database_identity enforce_postgres_version table_evidence
      enforce_table_policy table_schema_sha256 target_count target_set_sha256 explain_sha256
  gather options analyzed database = do
    attempt (Effect.begin true) (λ t. S.begin_transaction t true)
        (database_error "plan_transaction_failed")
    apply_local_timeouts S options.limits
    identity ← database_identity S database.endpoint_sha256
    lift (enforce_postgres_version identity)
    evidence ← table_evidence S analyzed.requested_table
    lift (
        enforce_table_policy evidence analyzed.kind options.allow_triggers
          options.allow_row_security)
    schema_hash ← lift (table_schema_sha256 S evidence)
    count ← target_count S analyzed
    refuse_if (ltb options.limits.max_rows count) (
        app_error budget "row_budget_exceeded" (
          "the planned target count "
          <> (show count <> (" exceeds max_rows " <> show options.limits.max_rows))))
    target_set ← target_set_sha256 S analyzed count
    explain ← explain_sha256 analyzed
    attempt Effect.commit S.commit_transaction (database_error "plan_transaction_commit_failed")
    pure (record {
      identity = identity;
      evidence = evidence;
      schema_hash = schema_hash;
      target_count = count;
      target_set_sha256 = target_set;
      explain_sha256 = explain;
    })

  -- The plan before its seal.
  unfoldable pub draft_plan :
      PlanOptions → AnalyzedSql → ConnectedDatabase → Gathered → ℕ → ℕ → Plan
  unfolding canonical_table sha256_bytes as_bytes show
  draft_plan options analyzed database gathered created_at expires_at = record {
    schema_version = plan_schema_version;
    tool_version = S.tool_version;
    plan_id = sha256_bytes S (
        as_bytes (
          analyzed.normalized_sql_sha256
          <> (":"
              <> (gathered.schema_hash
                  <> (":" <> (show gathered.target_count <> (":" <> show created_at)))))));
    created_at_unix_ms = created_at;
    expires_at_unix_ms = expires_at;
    statement_kind = analyzed.kind;
    requested_table = analyzed.requested_table;
    sql_file_sha256 = analyzed.sql_file_sha256;
    normalized_sql_sha256 = analyzed.normalized_sql_sha256;
    count_query_sha256 = analyzed.count_query_sha256;
    target_query_sha256 = analyzed.target_query_sha256;
    explain_sha256 = gathered.explain_sha256;
    limits = options.limits;
    transport_policy = database.transport_policy;
    allow_triggers = options.allow_triggers;
    allow_row_security = options.allow_row_security;
    preconditions = record {
      database = gathered.identity;
      canonical_table = canonical_table gathered.evidence;
      table_schema_sha256 = gathered.schema_hash;
      target_count = gathered.target_count;
      target_set_sha256 = gathered.target_set_sha256;
      relation_kind = gathered.evidence.relation_kind;
      user_trigger_count = length gathered.evidence.user_triggers;
      rewrite_rule_count = length gathered.evidence.rewrite_rules;
      row_security = gathered.evidence.row_security || gathered.evidence.force_row_security;
    };
    plan_sha256 = none;
  }

  -- `checked_add` on 64 bits.
  unfoldable pub expiry : ℕ → ℕ → M ℕ
  expiry created_at lifetime_ms = do
    refuse_if (if ltb (created_at + lifetime_ms) (2 ^ 64) then false else true)
        (app_error usage "plan_expiry_overflow" "plan expiry overflow")
    pure (created_at + lifetime_ms)

  unfoldable pub create_plan : PlanOptions → M Plan
  unfolding validate_limits validate_lifetime read_and_analyze connect_database gather unix_ms
      expiry draft_plan seal_plan write_plan_new
  create_plan options = do
    lift (validate_limits options.limits)
    lift (validate_lifetime options.lifetime_ms)
    analyzed ← read_and_analyze S options.sql_path
    database ←
        connect_database S options.database.environment_name
          options.database.allow_insecure_localhost
    gathered ← gather options analyzed database
    created_at ← unix_ms S
    expires_at ← expiry created_at options.lifetime_ms
    plan ← lift (seal_plan S (draft_plan options analyzed database gathered created_at expires_at))
    write_plan_new S options.output_path plan
    pure plan
