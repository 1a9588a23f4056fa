-- ===== src/Db/Quiet.antt =====
-- The evidence functions of src/db.rs and src/engine.rs change nothing.
use dmlpact.Base.{String, ℤ, Bool, true, false, if◌then◌else◌}
use dmlpact.Model.{Limits}
use dmlpact.System.{System, Config}
use dmlpact.System.Rules.{IsQuiet, quiet_rules}
use dmlpact.Db.Connect.{connect_database, connect_insecure, connect_tls}
use dmlpact.Db.Evidence.{
  database_identity, named_definitions, relation_lookup, column_evidence, inheritance_evidence,
  table_evidence, apply_local_timeouts,
}

module _ (S : System) where
  pub database_identity-IsQuiet : (endpoint : String) → IsQuiet (database_identity S endpoint)
  unfolding database_identity
  database_identity-IsQuiet endpoint = search quiet_rules

  named_definitions-IsQuiet :
      (query : String) (oid : ℤ) (code : String) → IsQuiet (named_definitions S query oid code)
  unfolding named_definitions
  named_definitions-IsQuiet query oid code = search quiet_rules

  relation_lookup-IsQuiet : (table : String) → IsQuiet (relation_lookup S table)
  unfolding relation_lookup
  relation_lookup-IsQuiet table = search quiet_rules

  column_evidence-IsQuiet : (oid : ℤ) → IsQuiet (column_evidence S oid)
  unfolding column_evidence
  column_evidence-IsQuiet oid = search quiet_rules

  inheritance_evidence-IsQuiet : (oid : ℤ) → IsQuiet (inheritance_evidence S oid)
  unfolding inheritance_evidence
  inheritance_evidence-IsQuiet oid = search quiet_rules

  pub table_evidence-IsQuiet : (table : String) → IsQuiet (table_evidence S table)
  unfolding table_evidence
  table_evidence-IsQuiet table =
      search
        (
          quiet_rules, named_definitions-IsQuiet, relation_lookup-IsQuiet, column_evidence-IsQuiet,
          inheritance_evidence-IsQuiet,
        )
        depth 12

  pub apply_local_timeouts-IsQuiet : (limits : Limits) → IsQuiet (apply_local_timeouts S limits)
  unfolding apply_local_timeouts
  apply_local_timeouts-IsQuiet limits = search quiet_rules

  connect_insecure-IsQuiet : (config : Config) → IsQuiet (connect_insecure S config)
  unfolding connect_insecure
  connect_insecure-IsQuiet config = search quiet_rules

  connect_tls-IsQuiet : (config : Config) → IsQuiet (connect_tls S config)
  unfolding connect_tls
  connect_tls-IsQuiet config = search quiet_rules

  if-IsQuiet :
      (b : Bool) (config : Config)
      → IsQuiet (if b then connect_insecure S config else connect_tls S config)
  if-IsQuiet true config = connect_insecure-IsQuiet config
  if-IsQuiet false config = connect_tls-IsQuiet config

  pub connect_database-IsQuiet :
      (name : String) (insecure : Bool) → IsQuiet (connect_database S name insecure)
  unfolding connect_database
  connect_database-IsQuiet name insecure = search (quiet_rules, if-IsQuiet) depth 8
