-- ===== src/Tests/Parts.antt =====
-- The theorems on the parts of the program at concrete inputs.
use dmlpact.Base.{arith, String, true, false, Option, some, none, [], ◌∷◌, ◌≡◌, refl, ◌↔◌}
use dmlpact.Error.{AppResult, ok, err}
use dmlpact.Model.{
  Plan, ReceiptEvent, ReceiptState, ReceiptResult, ReceiptVerification, StatementKind,
  TransportPolicy, is_final,
}
use dmlpact.System.{Trace}
use dmlpact.Sql.Ast.{TableWithJoins, FromTable}
use dmlpact.Sql.Forms.{AnalyzedSql, StatementDetails}
use dmlpact.Sql.Analyze.{analyze_insert, analyze_update, analyze_delete}
use dmlpact.Sql.Analyze.Rows.{AreRows}
use dmlpact.Sql.Analyze.RowsExact.{analyze_insert_iff}
use dmlpact.Sql.Analyze.Shapes.{IsSimpleUpdate, IsSimpleDelete}
use dmlpact.Sql.Analyze.Targets.{AreAbout}
use dmlpact.Sql.Analyze.Exact.{analyze_update_iff, analyze_delete_iff}
use dmlpact.Sql.Document.{analyze_sql}
use dmlpact.Db.Connect.{ConnectedDatabase, connect_database}
use dmlpact.Receipt.Seal.{seal_plan, verified_plan_sha256, seal_event, prepared_event, final_event}
use dmlpact.Receipt.Sealing.{verified_plan_sha256-seal_plan}
use dmlpact.Receipt.Version.{is_supported_artifact_tool_version}
use dmlpact.Receipt.Tamper.{HaveSameDigest, verified_plan_sha256-HaveSameDigest}
use dmlpact.Receipt.Check.{verify_events, verification}
use dmlpact.Receipt.Check.Written.{verify_events-final_event}
use dmlpact.Receipt.Check.Chain.{Reports, verify_events-Reports}
use dmlpact.Engine.Limits.{validate_limits}
use dmlpact.Engine.Limits.Bounds.{AreInRange, validate_limits_iff}
use dmlpact.Engine.Target.{target_set_sha256}
use dmlpact.Tests.World.{
  parser, limits, update_t, delete_t, insert_t, no_event, no_plan, no_analyzed,
}
use dmlpact.Tests.Runs.{planner}

abbrev or_else {ℓ} : {A : Type ℓ} → A → AppResult A → A
or_else a (ok x) = x
or_else a (err e) = a

abbrev no_details : StatementDetails
no_details = record {
  kind = StatementKind.insert;
  table = "";
  count_sql = none;
  target_rows_sql = none;
  inserted_rows = 0;
}

abbrev insert_details : StatementDetails
insert_details = or_else no_details (analyze_insert parser insert_t)

analyze_insert_iff_example :
    (analyze_insert parser insert_t ≡ ok insert_details) ↔ AreRows parser insert_t insert_details
analyze_insert_iff_example = analyze_insert_iff parser insert_t insert_details

abbrev update_details : StatementDetails
update_details = or_else no_details (analyze_update parser update_t)

analyze_update_iff_example : (analyze_update parser update_t ≡ ok update_details) ↔ (
    (condition : String) × (update_t.selection ≡ some condition)
    × IsSimpleUpdate update_t
    × AreAbout parser StatementKind.update update_t.table condition update_details)
analyze_update_iff_example = analyze_update_iff parser update_t update_details

abbrev delete_details : StatementDetails
delete_details = or_else no_details (analyze_delete parser delete_t)

analyze_delete_iff_example : (analyze_delete parser delete_t ≡ ok delete_details) ↔ (
    (condition : String) × (delete_t.selection ≡ some condition)
    × IsSimpleDelete delete_t
    × ((table : TableWithJoins String) × (delete_t.from ≡ FromTable.with_from_keyword (table ∷ []))
        × AreAbout parser StatementKind.delete table condition delete_details))
analyze_delete_iff_example = analyze_delete_iff parser delete_t delete_details

abbrev analysis : AnalyzedSql
analysis = or_else no_analyzed (analyze_sql planner "UPDATE")

abbrev connection : AppResult ConnectedDatabase × Trace
connection = connect_database planner "DB" true []

abbrev connected : ConnectedDatabase
connected =
    or_else (record { transport_policy = TransportPolicy.tls_required; endpoint_sha256 = "" })
      connection.0

abbrev sealed_plan : Plan
sealed_plan = or_else no_plan (seal_plan planner no_plan)

verified_plan_sha256-seal_plan_example :
    (h : String) × (sealed_plan ≡ record no_plan { plan_sha256 = some h })
    × (verified_plan_sha256 planner sealed_plan ≡ ok h)
unfolding seal_plan is_supported_artifact_tool_version
verified_plan_sha256-seal_plan_example =
    verified_plan_sha256-seal_plan planner no_plan sealed_plan refl refl refl

-- The serialiser of the small outside writes the identifier only, so these two share their seal.
abbrev other_plan : Plan
other_plan = record sealed_plan { requested_table = "t" }

verified_plan_sha256-HaveSameDigest_example : HaveSameDigest planner sealed_plan other_plan
unfolding seal_plan verified_plan_sha256
verified_plan_sha256-HaveSameDigest_example =
    verified_plan_sha256-HaveSameDigest planner (λ bytes. (omega arith, tt)) sealed_plan other_plan
      (or_else "" (verified_plan_sha256 planner sealed_plan)) refl refl

abbrev prepared : ReceiptEvent
prepared = or_else no_event (seal_event planner (prepared_event planner "h" "f" 5))

abbrev result : ReceiptResult
result = record {
  affected_rows = some 2;
  reason_code = "applied";
  sqlstate = none;
  database = none;
  table_schema_sha256 = none;
}

abbrev final : ReceiptEvent
final =
    or_else no_event
      (seal_event planner (final_event planner prepared 6 ReceiptState.committed result))

abbrev no_verification : ReceiptVerification
no_verification = record {
  schema_version = "";
  receipt_id = "";
  integrity_valid = false;
  complete = false;
  event_count = 0;
  final_state = ReceiptState.prepared;
  plan_sha256 = "";
  final_event_sha256 = "";
}

abbrev verified : ReceiptVerification
verified = or_else no_verification (verify_events planner (prepared ∷ final ∷ []))

verify_events-Reports_example : Reports planner (prepared ∷ final ∷ []) verified
unfolding verify_events seal_event prepared_event final_event
verify_events-Reports_example = verify_events-Reports planner (prepared ∷ final ∷ []) verified refl

verify_events-final_event_example :
    (hash : String) × (final.event_sha256 ≡ some hash)
    × (verify_events planner (prepared ∷ final ∷ []) ≡ ok (verification prepared final 2 hash))
unfolding seal_event prepared_event final_event is_final
verify_events-final_event_example =
    verify_events-final_event planner "h" "f" 5 6 ReceiptState.committed result prepared final refl
      refl refl (omega arith)

abbrev hash_run : AppResult String × Trace
hash_run = target_set_sha256 planner analysis 2 []

abbrev query_of : Option String → String
query_of none = ""
query_of (some q) = q

validate_limits_iff_example : (validate_limits limits ≡ ok tt) ↔ AreInRange limits
validate_limits_iff_example = validate_limits_iff limits
