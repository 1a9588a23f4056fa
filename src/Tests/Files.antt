-- ===== src/Tests/Files.antt =====
-- Plans and tables at concrete inputs: a plan file that is written and read, and what the policy lets
-- through.
use dmlpact.Base.{pos, none, true, false, arith, some, [], ◌∷◌, ◌++◌, ◌≡◌, refl, ◌↔◌, ◌⊎◌, ◌<◌, len}
use dmlpact.Base.Text.{Bytes, as_bytes}
use dmlpact.Error.{AppError, AppResult, ok, err, exit_code, app_error, contract}
use dmlpact.Model.{StatementKind, TableEvidence}
use dmlpact.System.{System, Trace, affected}
use dmlpact.System.Monad.{
  ◌>>=◌, ask_or, attempt, lift, pure, perform, refuse_if, branch, match_result, map_err,
}
use dmlpact.Receipt.PlanFile.{read_plan, write_plan_new}
use dmlpact.Receipt.PlanReading.{read_plan-write_plan_new}
use dmlpact.Engine.Planning.{create_plan}
use dmlpact.Db.Policy.{enforce_table_policy}
use dmlpact.Db.Policy.Guards.{IsAllowed}
use dmlpact.Db.Policy.Exact.{enforce_table_policy_iff}
use dmlpact.Sql.Document.{analyze_sql}
use dmlpact.Sql.Forms.{AnalyzedSql, max_sql_bytes}
use dmlpact.Tests.World.{no_analyzed}
use dmlpact.Sql.Document.Refused.{analyze_sql-refusal}
use dmlpact.Tests.Runs.{planner, made_plan, applier}

abbrev plan_bytes : Bytes
plan_bytes = as_bytes made_plan.plan_id ++ (10 ∷ [])

-- The outside in which the plan file holds the plan.
abbrev holder : System
holder = record (applier (affected 2) true) {
  read = λ _ _. some plan_bytes;
  metadata = λ _ _. some (record { is_file = true; len = 3 });
}

abbrev write_run : AppResult (Unit {0}) × Trace
write_run = write_plan_new holder "plan.json" made_plan []

read_plan-write_plan_new_example : (read_plan holder "plan.json" write_run.1).0 ≡ ok made_plan
unfolding create_plan write_plan_new as_bytes ◌>>=◌ ask_or attempt lift pure perform refuse_if
    branch match_result map_err
read_plan-write_plan_new_example =
    read_plan-write_plan_new holder "plan.json" "plan.json" made_plan plan_bytes [] write_run.1
      write_run.1 refl (λ text e. refl) refl (omega arith)
      (record {
        found = record { is_file = true; len = 3 };
        looked_up = refl;
        regular = refl;
        size = refl;
        read = refl;
      })

abbrev evidence : TableEvidence
evidence = record {
  schema = "s";
  table = "t";
  oid = pos 1;
  relation_kind = "r";
  persistence = "p";
  row_security = false;
  force_row_security = false;
  columns =
      record {
        position = pos 1;
        name = "a";
        data_type = "integer";
        not_null = true;
        has_default = false;
        default_expression = none;
        identity = "";
        generated = "";
      }
      ∷ [];
  constraints = [];
  indexes = [];
  user_triggers = record { name = "audit"; definition = "" } ∷ [];
  rewrite_rules = [];
  policies = [];
  inheritance_relations = [];
  referential_actions = [];
}

enforce_table_policy_iff_example :
    (enforce_table_policy evidence StatementKind.insert true false ≡ ok tt)
    ↔ IsAllowed evidence StatementKind.insert true false
enforce_table_policy_iff_example = enforce_table_policy_iff evidence StatementKind.insert true false

abbrev refusal : AppError
refusal = elim (analyze_sql planner " ") [ ok a ↦ app_error contract "" "" | err e ↦ e ]

analyze_sql-refusal_example :
    (exit_code refusal.class ≡ 3)
    ⊎ ((max_sql_bytes < len " ")
        × (refusal.code ≡ "sql_file_too_large")
        × (exit_code refusal.class ≡ 2))
unfolding analyze_sql
analyze_sql-refusal_example = analyze_sql-refusal planner " " refusal refl

abbrev update_analyzed : AnalyzedSql
update_analyzed = elim (analyze_sql planner "UPDATE") [ ok a ↦ a | err e ↦ no_analyzed ]
