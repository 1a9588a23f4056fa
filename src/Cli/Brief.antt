-- ===== src/Cli/Brief.antt =====
-- What src/main.rs says of itself: the capabilities and the compact contract.
use dmlpact.Base.{[], ◌∷◌, btree_map}
use dmlpact.Model.{Capabilities, ContractBrief}
use dmlpact.System.{System}

module _ (S : System) where
  unfoldable pub capabilities : Capabilities
  capabilities = record {
    schema_version = "dmlpact.capabilities.v1";
    tool_version = S.tool_version;
    database = "PostgreSQL 13+";
    statement_kinds = "insert_values" ∷ "update_with_where" ∷ "delete_with_where" ∷ [];
    transport_policies = "tls_required" ∷ "insecure_localhost_explicit_opt_in" ∷ [];
    safety_defaults = btree_map (
        ("apply_receipt", "required_new_path")
        ∷ ("receipt_finalization_failure", "exit_5_reconciliation_required")
        ∷ ("connection_secret", "environment_only")
        ∷ ("drift", "refuse")
        ∷ ("row_security", "refuse_unless_acknowledged")
        ∷ ("tls", "required")
        ∷ ("triggers", "refuse_unless_acknowledged")
        ∷ ("where", "required_for_update_delete")
        ∷ []);
    limitations =
        "single ordinary permanent table only"
        ∷ "no functions, subqueries, joins, RETURNING, ON CONFLICT, USING, or UPDATE FROM"
        ∷ "no partitioned, foreign, temporary, or rewrite-rule targets"
        ∷ "no inheritance links or cascading/SET NULL/SET DEFAULT referential actions"
        ∷ "INSERT targets cannot have defaults, identity columns, or generated columns"
        ∷ "plans expire within 24 hours" ∷ [];
    supported_platforms = "linux-x86_64" ∷ "macos-x86_64" ∷ "macos-aarch64" ∷ "windows-x86_64" ∷ [];
  }

  unfoldable pub contract : ContractBrief
  unfolding capabilities
  contract = record {
    schema_version = "dmlpact.contract.v1";
    tool_version = S.tool_version;
    commands =
        "lint" ∷ "inspect" ∷ "plan" ∷ "apply" ∷ "receipt verify" ∷ "schema" ∷ "capabilities"
        ∷ "contract" ∷ "completions" ∷ [];
    output_formats = "json" ∷ "ndjson_receipt" ∷ [];
    data_schemas = btree_map (
        ("apply_result", "dmlpact.apply-result.v1")
        ∷ ("error", "dmlpact.error.v1")
        ∷ ("plan", "dmlpact.plan.v1")
        ∷ ("receipt_event", "dmlpact.receipt-event.v1")
        ∷ []);
    exit_codes = btree_map (
        ("0", "success_or_receipted_safety_refusal")
        ∷ ("1", "io_or_database_transport")
        ∷ ("2", "usage")
        ∷ ("3", "policy")
        ∷ ("4", "budget")
        ∷ ("5", "contract_or_uncertain_commit")
        ∷ []);
    safety_defaults = capabilities.safety_defaults;
  }
