-- ===== src/Model/Data.antt =====
-- The structs and enums of src/model.rs.
use dmlpact.Base.{ℕ, ℤ, String, Bool, true, false, Option, List, BTreeMap}

abbrev pub plan_schema_version : String
plan_schema_version = "dmlpact.plan.v1"

abbrev pub receipt_schema_version : String
receipt_schema_version = "dmlpact.receipt-event.v1"

pub data StatementKind : Type 0 where
  insert update delete : StatementKind

unfoldable pub kind_as_str : StatementKind → String
kind_as_str insert = "insert"
kind_as_str update = "update"
kind_as_str delete = "delete"

pub data TransportPolicy : Type 0 where
  tls_required insecure_localhost : TransportPolicy

pub record Limits : Type 0 where
  pub max_rows : ℕ
  pub statement_timeout_ms : ℕ
  pub lock_timeout_ms : ℕ

-- `settings` is a map with sorted keys: its entries in that order.
pub record DatabaseIdentity : Type 0 where
  pub database : String
  pub role : String
  pub search_path : String
  pub server_version_num : ℤ
  pub endpoint_sha256 : String
  pub server_address : Option String
  pub server_port : Option ℤ
  pub settings : List (String × String)

pub record ColumnEvidence : Type 0 where
  pub position : ℤ
  pub name : String
  pub data_type : String
  pub not_null : Bool
  pub has_default : Bool
  pub default_expression : Option String
  pub identity : String
  pub generated : String

pub record NamedDefinition : Type 0 where
  pub name : String
  pub definition : String

pub record TableEvidence : Type 0 where
  pub schema : String
  pub table : String
  pub oid : ℤ
  pub relation_kind : String
  pub persistence : String
  pub row_security : Bool
  pub force_row_security : Bool
  pub columns : List ColumnEvidence
  pub constraints : List NamedDefinition
  pub indexes : List NamedDefinition
  pub user_triggers : List NamedDefinition
  pub rewrite_rules : List NamedDefinition
  pub policies : List NamedDefinition
  pub inheritance_relations : List String
  pub referential_actions : List NamedDefinition

pub record PlanPreconditions : Type 0 where
  pub database : DatabaseIdentity
  pub canonical_table : String
  pub table_schema_sha256 : String
  pub target_count : ℕ
  pub target_set_sha256 : String
  pub relation_kind : String
  pub user_trigger_count : ℕ
  pub rewrite_rule_count : ℕ
  pub row_security : Bool

pub record Plan : Type 0 where
  pub schema_version : String
  pub tool_version : String
  pub plan_id : String
  pub created_at_unix_ms : ℕ
  pub expires_at_unix_ms : ℕ
  pub statement_kind : StatementKind
  pub requested_table : String
  pub sql_file_sha256 : String
  pub normalized_sql_sha256 : String
  pub count_query_sha256 : Option String
  pub target_query_sha256 : Option String
  pub explain_sha256 : String
  pub limits : Limits
  pub transport_policy : TransportPolicy
  pub allow_triggers : Bool
  pub allow_row_security : Bool
  pub preconditions : PlanPreconditions
  pub plan_sha256 : Option String

pub record LintReport : Type 0 where
  pub schema_version : String
  pub tool_version : String
  pub statement_kind : StatementKind
  pub requested_table : String
  pub sql_file_sha256 : String
  pub normalized_sql_sha256 : String
  pub generated_target_count : ℕ
  pub count_query_sha256 : Option String
  pub target_query_sha256 : Option String
  pub policy_checks : List String
  pub executable_sql_emitted : Bool

pub record InspectReport : Type 0 where
  pub schema_version : String
  pub tool_version : String
  pub database : DatabaseIdentity
  pub table_schema_sha256 : String
  pub table : TableEvidence
  pub transport_policy : TransportPolicy

pub data ReceiptState : Type 0 where
  prepared committed rolled_back refused uncertain : ReceiptState

unfoldable pub is_final : ReceiptState → Bool
is_final prepared = false
is_final _ = true

pub record ReceiptResult : Type 0 where
  pub affected_rows : Option ℕ
  pub reason_code : String
  pub sqlstate : Option String
  pub database : Option DatabaseIdentity
  pub table_schema_sha256 : Option String

pub record ReceiptEvent : Type 0 where
  pub schema_version : String
  pub tool_version : String
  pub receipt_id : String
  pub sequence : ℕ
  pub timestamp_unix_ms : ℕ
  pub plan_sha256 : String
  pub sql_file_sha256 : String
  pub previous_event_sha256 : Option String
  pub state : ReceiptState
  pub result : Option ReceiptResult
  pub event_sha256 : Option String

pub record ApplyResult : Type 0 where
  pub schema_version : String
  pub receipt_id : String
  pub state : ReceiptState
  pub plan_sha256 : String
  pub affected_rows : Option ℕ
  pub reason_code : String
  pub receipt_path : String

pub record ReceiptVerification : Type 0 where
  pub schema_version : String
  pub receipt_id : String
  pub integrity_valid : Bool
  pub complete : Bool
  pub event_count : ℕ
  pub final_state : ReceiptState
  pub plan_sha256 : String
  pub final_event_sha256 : String

pub record Capabilities : Type 0 where
  pub schema_version : String
  pub tool_version : String
  pub database : String
  pub statement_kinds : List String
  pub transport_policies : List String
  pub safety_defaults : BTreeMap String
  pub limitations : List String
  pub supported_platforms : List String

pub record ContractBrief : Type 0 where
  pub schema_version : String
  pub tool_version : String
  pub commands : List String
  pub output_formats : List String
  pub data_schemas : BTreeMap String
  pub exit_codes : BTreeMap String
  pub safety_defaults : BTreeMap String

-- The contracts that have a JSON Schema (src/main.rs).
pub data SchemaDocument : Type 0 where
  plan receipt_event receipt_verification apply_result error capabilities : SchemaDocument

-- What the program writes to standard output: a value that is serialised there, or the schema of one.
pub data Document : Type 0 where
  lint_report : LintReport → Document
  inspect_report : InspectReport → Document
  sealed_plan : Plan → Document
  applied : ApplyResult → Document
  verification : ReceiptVerification → Document
  schema_of : SchemaDocument → Document
  described : Capabilities → Document
  brief : ContractBrief → Document
