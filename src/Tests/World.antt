-- ===== src/Tests/World.antt =====
-- A small outside to run the program in: one table `t` with two rows that an UPDATE changes.
use dmlpact.Base.{pos, String, Bool, true, false, Option, none, some, [], ◌∷◌, ◌%◌, length}
use dmlpact.Model.{
  Plan, ReceiptEvent, ReceiptState, StatementKind, TransportPolicy, ApplyResult, Limits,
  plan_schema_version,
}
use dmlpact.Sql.Ast.{
  Expr, NamePart, Update, Delete, FromTable, Insert, TableObject, Query, SetExpr, TableFactor,
  TableWithJoins, Statement, SqlParser,
}
use dmlpact.Sql.Forms.{AnalyzedSql}
use dmlpact.System.{System, Host, Config, Executed}
use dmlpact.Engine.Apply.{DatabaseOptions, ApplyOptions}
use dmlpact.Engine.Planning.{PlanOptions}

abbrev pub table_t : TableWithJoins String
table_t = record {
  relation = TableFactor.table (record {
    name = NamePart.ident (record { value = "t"; quote_style = none }) ∷ [];
    alias = none;
    args = none;
    with_hints = [];
    version = none;
    with_ordinality = false;
    partitions = [];
    json_path = none;
    sample = none;
    index_hints = [];
  });
  joins = [];
}

abbrev pub update_t : Update String
update_t = record {
  optimizer_hints = [];
  table = table_t;
  assignments = "a = 1" ∷ [];
  from = none;
  selection = some "b = 2";
  returning = none;
  output = none;
  or_clause = none;
  order_by = [];
  limit = none;
}

abbrev pub delete_t : Delete String
delete_t = record {
  optimizer_hints = [];
  tables = [];
  from = FromTable.with_from_keyword (table_t ∷ []);
  using = none;
  selection = some "b = 2";
  returning = none;
  output = none;
  order_by = [];
  limit = none;
}

abbrev pub two_rows : Query String
two_rows = record {
  with_clause = none;
  order_by = none;
  limit_clause = none;
  fetch = none;
  locks = [];
  for_clause = none;
  settings = none;
  format_clause = none;
  pipe_operators = [];
  body = SetExpr.values (record {
    explicit_row = false;
    value_keyword = false;
    rows = ("1" ∷ "2" ∷ []) ∷ ("3" ∷ "4" ∷ []) ∷ [];
  });
}

abbrev pub insert_t : Insert String
insert_t = record {
  optimizer_hints = [];
  or_clause = none;
  ignore = false;
  table_alias = none;
  overwrite = false;
  assignments = [];
  partitioned = none;
  after_columns = [];
  has_table_keyword = false;
  on_clause = none;
  returning = none;
  output = none;
  replace_into = false;
  priority = none;
  insert_alias = none;
  settings = none;
  format_clause = none;
  multi_table_insert_type = none;
  multi_table_into_clauses = [];
  multi_table_when_clauses = [];
  multi_table_else_clause = none;
  table = TableObject.table_name (NamePart.ident (record { value = "t"; quote_style = none }) ∷ []);
  columns = "a" ∷ "b" ∷ [];
  source = some two_rows;
}

abbrev pub parser : SqlParser
parser = record {
  Node = String;
  parse_sql = λ raw. some (Statement.update update_t ∷ []);
  visit_expressions = λ s. Expr.other ∷ [];
  statement_text = λ s. "UPDATE t SET a = 1 WHERE b = 2";
  expr_text = λ e. e;
  table_text = λ t. "t";
  ident_text = λ i. i.value;
  name_text = λ n. "t";
}

abbrev local_config : Config
local_config = record {
  hosts = Host.tcp "localhost" ∷ [];
  hostaddrs = [];
  ports = 5432 ∷ [];
  user = none;
  dbname = none;
}

-- The outside with the plan on disk, the events of a receipt, and the answers to the statement and
-- to its commit.
abbrev pub world : Option Plan → ReceiptEvent → Executed → Bool → System
world plan event executed commits = record {
  parser = parser;
  tool_version = "0.3.0";
  digest = λ bytes. (length bytes % 256) ∷ [];
  Json = Unit;
  json_text = λ _. some "{}";
  plan_json = λ p. some p.plan_id;
  plan_json_pretty = λ p. some p.plan_id;
  event_json = λ e. some e.receipt_id;
  evidence_json = λ e. some e.table;
  parse_plan = λ _. plan;
  parse_event = λ _. some event;
  now = λ _. some 7;
  metadata = λ _ _. some (record { is_file = true; len = 10 });
  read = λ _ _. some [];
  read_to_string = λ _ _. some "UPDATE";
  create_new = λ _ _. true;
  write_all_and_sync = λ _ _ _. true;
  env_var = λ _ _. some "postgres";
  parse_config = λ _. some local_config;
  native_certs = λ _. true;
  connect_to = λ _ _ _. true;
  begin_transaction = λ _ _. true;
  batch_execute = λ _ _. true;
  identity_row = λ _. some (record {
    current_database = "d";
    current_user = "u";
    search_path = "p";
    server_version_num = pos 160_000;
    server_addr = none;
    server_port = none;
    time_zone = "UTC";
    date_style = "ISO";
    interval_style = "postgres";
    standard_conforming_strings = "on";
    client_encoding = "UTF8";
    lc_numeric = "C";
    lc_monetary = "C";
    lc_time = "C";
  });
  relation_row = λ _ _. some (
      some (record {
        oid = pos 1;
        nspname = "s";
        relname = "t";
        relkind = "r";
        relpersistence = "p";
        relrowsecurity = false;
        relforcerowsecurity = false;
      }));
  column_rows = λ _ _. some [];
  definition_rows = λ _ _ _. some [];
  link_rows = λ _ _. some [];
  count_row = λ _ _. some (pos 2);
  target_rows = λ _ _. some (some "{1}" ∷ some "{2}" ∷ []);
  explain_row = λ _ _. some tt;
  execute_statement = λ _ _. executed;
  commit_transaction = λ _. commits;
  write_result = λ _ _. true;
  write_newline = λ _. true;
  write_error = λ _ _. true;
  write_text = λ _ _. true;
  write_completions = λ _ _. true;
  write_error_newline = λ _. true;
}

abbrev pub limits : Limits
limits = record { max_rows = 10; statement_timeout_ms = 200; lock_timeout_ms = 100 }

abbrev pub database_options : DatabaseOptions
database_options = record { environment_name = "DB"; allow_insecure_localhost = true }

abbrev pub plan_options : PlanOptions
plan_options = record {
  sql_path = "a.sql";
  output_path = "plan.json";
  database = database_options;
  limits = limits;
  lifetime_ms = 1000;
  allow_triggers = false;
  allow_row_security = false;
}

abbrev pub apply_options : ApplyOptions
apply_options = record {
  sql_path = "a.sql";
  plan_path = "plan.json";
  receipt_path = "receipt.ndjson";
  database = database_options;
}

-- Records to fall back on.
abbrev pub no_event : ReceiptEvent
no_event = record {
  schema_version = "";
  tool_version = "";
  receipt_id = "";
  sequence = 0;
  timestamp_unix_ms = 0;
  plan_sha256 = "";
  sql_file_sha256 = "";
  previous_event_sha256 = none;
  state = ReceiptState.prepared;
  result = none;
  event_sha256 = none;
}

abbrev pub no_plan : Plan
no_plan = record {
  schema_version = plan_schema_version;
  tool_version = "0.3.0";
  plan_id = "";
  created_at_unix_ms = 0;
  expires_at_unix_ms = 0;
  statement_kind = StatementKind.insert;
  requested_table = "";
  sql_file_sha256 = "";
  normalized_sql_sha256 = "";
  count_query_sha256 = none;
  target_query_sha256 = none;
  explain_sha256 = "";
  limits = limits;
  transport_policy = TransportPolicy.tls_required;
  allow_triggers = false;
  allow_row_security = false;
  preconditions = record {
    database = record {
      database = "";
      role = "";
      search_path = "";
      server_version_num = pos 0;
      endpoint_sha256 = "";
      server_address = none;
      server_port = none;
      settings = [];
    };
    canonical_table = "";
    table_schema_sha256 = "";
    target_count = 0;
    target_set_sha256 = "";
    relation_kind = "";
    user_trigger_count = 0;
    rewrite_rule_count = 0;
    row_security = false;
  };
  plan_sha256 = none;
}

abbrev pub no_result : ApplyResult
no_result = record {
  schema_version = "";
  receipt_id = "";
  state = ReceiptState.prepared;
  plan_sha256 = "";
  affected_rows = none;
  reason_code = "";
  receipt_path = "";
}

abbrev pub no_analyzed : AnalyzedSql
no_analyzed = record {
  normalized = "";
  kind = StatementKind.insert;
  requested_table = "";
  sql_file_sha256 = "";
  normalized_sql_sha256 = "";
  count_sql = none;
  count_query_sha256 = none;
  target_rows_sql = none;
  target_query_sha256 = none;
  inserted_rows = 0;
}
