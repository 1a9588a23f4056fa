-- ===== src/Db/Evidence.antt =====
-- What src/db.rs asks of the session: its identity, the catalog's evidence on a table, the timeouts.
use dmlpact.Base.{ℕ, ℤ, ◌+◌, ◌-◌, ◌^◌, String, ◌<>◌, List, [], ◌∷◌, map, ltb}
use dmlpact.Base.{if◌then◌else◌}
use dmlpact.Base.Text.{show}
use dmlpact.Error.{AppResult, app_error, policy}
use dmlpact.Error.Pure.{ok_or}
use dmlpact.Model.{Limits, DatabaseIdentity, ColumnEvidence, NamedDefinition, TableEvidence}
use dmlpact.System.{System, Effect, IdentityRow, RelationRow, ColumnRow}
use dmlpact.System.Monad.{M, ◌>>=◌, pure, lift, attempt, ask_or}
use dmlpact.Integrity.{sha256_json}
use dmlpact.Db.Names.{database_error}
use dmlpact.Db.Queries.{
  identity_sql, table_sql, column_sql, constraint_sql, index_sql, trigger_sql, rule_sql, policy_sql,
  inheritance_sql, referential_action_sql,
}

-- `u64::saturating_add`.
unfoldable pub saturating_add : ℕ → ℕ → ℕ
saturating_add a b = if ltb (a + b) (2 ^ 64) then a + b else 2 ^ 64 - 1

-- A `BTreeMap` keeps its entries by key, so the settings stand in the order of the keys' bytes.
identity_of_row : String → IdentityRow → DatabaseIdentity
identity_of_row endpoint_sha256 row = record {
  database = row.current_database;
  role = row.current_user;
  search_path = row.search_path;
  server_version_num = row.server_version_num;
  endpoint_sha256 = endpoint_sha256;
  server_address = row.server_addr;
  server_port = row.server_port;
  settings =
      ("DateStyle", row.date_style)
      ∷ ("IntervalStyle", row.interval_style)
      ∷ ("TimeZone", row.time_zone)
      ∷ ("client_encoding", row.client_encoding)
      ∷ ("lc_monetary", row.lc_monetary)
      ∷ ("lc_numeric", row.lc_numeric)
      ∷ ("lc_time", row.lc_time)
      ∷ ("standard_conforming_strings", row.standard_conforming_strings)
      ∷ [];
}

column_of_row : ColumnRow → ColumnEvidence
column_of_row column = record {
  position = column.attnum;
  name = column.attname;
  data_type = column.format_type;
  not_null = column.attnotnull;
  has_default = column.atthasdef;
  default_expression = column.default_expr;
  identity = column.attidentity;
  generated = column.attgenerated;
}

definition_of_row : String × String → NamedDefinition
definition_of_row (name, definition) = record { name = name; definition = definition }

timeouts_text : Limits → String
unfolding saturating_add show
timeouts_text limits =
    "SET LOCAL statement_timeout = '"
    <> (show limits.statement_timeout_ms
        <> ("ms'; SET LOCAL lock_timeout = '"
            <> (show limits.lock_timeout_ms
                <> ("ms'; SET LOCAL idle_in_transaction_session_timeout = '"
                    <> (show (saturating_add limits.statement_timeout_ms 5_000) <> "ms'")))))

module _ (S : System) where
  unfoldable pub database_identity : String → M DatabaseIdentity
  unfolding identity_of_row
  database_identity endpoint_sha256 = do
    row ← ask_or (Effect.query identity_sql) S.identity_row (database_error "identity_query_failed")
    pure (identity_of_row endpoint_sha256 row)

  unfoldable pub named_definitions : String → ℤ → String → M (List NamedDefinition)
  unfolding definition_of_row
  named_definitions query oid error_code = do
    rows ←
        ask_or (Effect.query query) (λ t. S.definition_rows t query oid) (database_error error_code)
    pure (map definition_of_row rows)

  unfoldable pub relation_lookup : String → M RelationRow
  relation_lookup requested_table = do
    found ←
        ask_or (Effect.query table_sql) (λ t. S.relation_row t requested_table)
          (database_error "table_lookup_failed")
    lift (
        ok_or found (
          app_error policy "table_not_found"
            "the requested table does not resolve in the current database and search path"))

  unfoldable pub column_evidence : ℤ → M (List ColumnEvidence)
  unfolding column_of_row
  column_evidence oid = do
    rows ←
        ask_or (Effect.query column_sql) (λ t. S.column_rows t oid)
          (database_error "column_evidence_failed")
    pure (map column_of_row rows)

  unfoldable pub inheritance_evidence : ℤ → M (List String)
  inheritance_evidence oid =
      ask_or (Effect.query inheritance_sql) (λ t. S.link_rows t oid)
        (database_error "inheritance_evidence_failed")

  unfoldable pub table_evidence : String → M TableEvidence
  unfolding named_definitions relation_lookup column_evidence inheritance_evidence
  table_evidence requested_table = do
    row ← relation_lookup requested_table
    columns ← column_evidence row.oid
    constraints ← named_definitions constraint_sql row.oid "constraint_evidence_failed"
    indexes ← named_definitions index_sql row.oid "index_evidence_failed"
    user_triggers ← named_definitions trigger_sql row.oid "trigger_evidence_failed"
    rewrite_rules ← named_definitions rule_sql row.oid "rule_evidence_failed"
    policies ← named_definitions policy_sql row.oid "policy_evidence_failed"
    inheritance_relations ← inheritance_evidence row.oid
    referential_actions ←
        named_definitions referential_action_sql row.oid "referential_action_evidence_failed"
    pure (record {
      schema = row.nspname;
      table = row.relname;
      oid = row.oid;
      relation_kind = row.relkind;
      persistence = row.relpersistence;
      row_security = row.relrowsecurity;
      force_row_security = row.relforcerowsecurity;
      columns = columns;
      constraints = constraints;
      indexes = indexes;
      user_triggers = user_triggers;
      rewrite_rules = rewrite_rules;
      policies = policies;
      inheritance_relations = inheritance_relations;
      referential_actions = referential_actions;
    })

  unfoldable pub table_schema_sha256 : TableEvidence → AppResult String
  unfolding sha256_json
  table_schema_sha256 evidence = sha256_json S (S.evidence_json evidence)

  unfoldable pub apply_local_timeouts : Limits → M (Unit {0})
  unfolding timeouts_text
  apply_local_timeouts limits =
      attempt (Effect.batch (timeouts_text limits)) (λ t. S.batch_execute t (timeouts_text limits))
        (database_error "timeout_configuration_failed")
