-- ===== src/Tests/Succeeding.antt =====
-- A plan that is applied in the small outside, step by step.
use mathlib.Core.Option.{some-injective}
use dmlpact.Base.{ℕ, subst, String, pos, true, false, some, arith, [], ◌∷◌, ◌≡◌, refl}
use dmlpact.Error.{ok, AppResult}
use dmlpact.Model.{Plan, ReceiptState, ReceiptEvent, TableEvidence}
use dmlpact.System.{System, Effect, Trace, affected}
use dmlpact.System.Monad.{
  ◌>>=◌, ask_or, attempt, lift, pure, perform, refuse_if, branch, match_result, map_err,
}
use dmlpact.Sql.File.{read_and_analyze}
use dmlpact.Sql.Forms.{AnalyzedSql}
use dmlpact.Db.Connect.{ConnectedDatabase, connect_database}
use dmlpact.Db.Evidence.{table_evidence, apply_local_timeouts}
use dmlpact.Receipt.Journal.{ReceiptJournal, create, finalize}
use dmlpact.Engine.Planning.{create_plan}
use dmlpact.Engine.Apply.{lock_query, apply_plan, apply_after_receipt}
use dmlpact.Engine.Apply.Outcome.{IsAuthorised, after_identity, after_checks}
use dmlpact.Engine.Apply.Progress.{GoesWell, committed_result, success, apply_after_receipt-success}
use dmlpact.Integrity.{unix_ms}
use dmlpact.Sql.Document.{analyze_sql}
use dmlpact.Receipt.PlanFile.{read_plan}
use dmlpact.Engine.Carried.{apply_plan-create_plan}
use dmlpact.Tests.World.{plan_options, apply_options, database_options, no_event, no_analyzed}
use dmlpact.Tests.Runs.{planner, made_plan, applier, value_of}

abbrev outside : System
outside = applier (affected 2) true

abbrev journal : ReceiptJournal
journal = record { path = "receipt.ndjson"; prepared = no_event }

abbrev update_analyzed : AnalyzedSql
update_analyzed = value_of no_analyzed (read_and_analyze planner "a.sql" [])

abbrev no_database : ConnectedDatabase
no_database = record { endpoint_sha256 = ""; transport_policy = made_plan.transport_policy }

abbrev connection : AppResult ConnectedDatabase × Trace
connection = connect_database outside "DB" true []

abbrev endpoint : String
endpoint = (value_of no_database connection).endpoint_sha256

abbrev configured : Trace
configured =
    (apply_local_timeouts outside made_plan.limits (Effect.begin false true ∷ connection.1)).1

abbrev moment : Trace
moment = Effect.batch (lock_query made_plan) true ∷ configured

abbrev executed : Trace
executed =
    Effect.commit true
    ∷ Effect.execute update_analyzed.normalized (some 2)
    ∷ after_checks outside made_plan update_analyzed endpoint moment

abbrev ended : AppResult ReceiptEvent × Trace
ended =
    finalize outside journal ReceiptState.committed
      (committed_result outside journal made_plan update_analyzed) executed

abbrev pub no_evidence : TableEvidence
no_evidence = record {
  schema = "";
  table = "";
  oid = pos 0;
  relation_kind = "";
  persistence = "";
  row_security = false;
  force_row_security = false;
  columns = [];
  constraints = [];
  indexes = [];
  user_triggers = [];
  rewrite_rules = [];
  policies = [];
  inheritance_relations = [];
  referential_actions = [];
}

authorised : IsAuthorised outside made_plan update_analyzed endpoint moment
unfolding create_plan read_and_analyze apply_after_receipt ◌>>=◌ ask_or attempt lift pure perform
    refuse_if branch match_result map_err
authorised = record {
  table_matches = record {
    unlocked = configured;
    locked = refl;
    same_database = refl;
    evidence = value_of no_evidence (
        table_evidence outside update_analyzed.requested_table
          (after_identity outside made_plan update_analyzed endpoint moment));
    found = refl;
    same_table = refl;
    same_schema = refl;
    allowed = refl;
  };
  same_count = refl;
  within_budget = omega arith;
  same_rows = refl;
}

well :
    GoesWell outside journal made_plan update_analyzed
      (after_checks outside made_plan update_analyzed endpoint moment)
      (value_of no_event ended)
      ended.1
unfolding create_plan read_and_analyze apply_after_receipt ◌>>=◌ ask_or attempt lift pure perform
    refuse_if branch match_result map_err
well = record { executed = refl; commits = refl; finalized = refl }

apply_after_receipt-success_example :
    apply_after_receipt outside journal made_plan update_analyzed database_options []
    ≡ success outside journal made_plan update_analyzed (value_of no_event ended) ended.1
unfolding create_plan read_and_analyze apply_after_receipt ◌>>=◌ ask_or attempt lift pure perform
    refuse_if branch match_result map_err
apply_after_receipt-success_example =
    apply_after_receipt-success outside journal made_plan update_analyzed database_options []
      connection.1 configured (value_of no_database connection) (value_of no_event ended) ended.1
      refl refl refl refl refl refl authorised well

abbrev plan_run : AppResult Plan × Trace
plan_run = create_plan outside plan_options []

abbrev read_run : AppResult Plan × Trace
read_run = read_plan outside "plan.json" []

abbrev text_run : AppResult AnalyzedSql × Trace
text_run = read_and_analyze outside "a.sql" read_run.1

abbrev clock_run : AppResult ℕ × Trace
clock_run = unix_ms outside text_run.1

abbrev open_run : AppResult ReceiptJournal × Trace
open_run = create outside "receipt.ndjson" made_plan update_analyzed.sql_file_sha256 clock_run.1

apply_plan-create_plan_example :
    apply_plan outside apply_options []
    ≡ apply_after_receipt outside
        (value_of journal open_run)
        made_plan
        update_analyzed
        database_options
        open_run.1
unfolding create_plan read_plan read_and_analyze create unix_ms ◌>>=◌ ask_or attempt lift pure
    perform refuse_if branch match_result map_err
apply_plan-create_plan_example =
    apply_plan-create_plan outside plan_options apply_options made_plan 7
      (value_of journal open_run) update_analyzed [] plan_run.1 [] read_run.1 text_run.1 clock_run.1
      open_run.1 refl
      (λ moment text held.
        subst (λ s. analyze_sql outside s ≡ ok update_analyzed) (some-injective "UPDATE" text held)
          refl)
      refl refl refl (omega arith) refl
