-- ===== src/Tests/Runs.antt =====
-- Whole runs of the program: a plan is made, applied, and its receipt is written.
use dmlpact.Base.{String, Bool, true, false, none, some, List, [], ◌∷◌, ◌≡◌, refl}
use dmlpact.Error.{AppResult, ok, err}
use dmlpact.Model.{Plan, ApplyResult}
use dmlpact.System.{System, Executed, affected, Trace}
use dmlpact.System.Monad.{
  ◌>>=◌, ask_or, attempt, lift, pure, perform, refuse_if, branch, match_result, map_err,
}
use dmlpact.Engine.Planning.{create_plan}
use dmlpact.Engine.Apply.{apply_plan}
use dmlpact.Engine.Apply.Trail.{commits}
use dmlpact.Tests.World.{world, plan_options, apply_options, no_event, no_plan}

abbrev pub value_of {ℓ} : {A : Type ℓ} → A → AppResult A × Trace → A
value_of a (ok x, t) = x
value_of a (err e, t) = a

-- Whether a run gives a result.
abbrev pub succeeds {ℓ} : {A : Type ℓ} → AppResult A × Trace → Bool
succeeds (ok a, t) = true
succeeds (err e, t) = false

abbrev pub planner : System
planner = world none no_event (affected 2) true

-- The plan that `create_plan` makes.
abbrev pub made_plan : Plan
made_plan = value_of no_plan (create_plan planner plan_options [])

-- The outside with that plan on disk, for an answer to the statement and to the commit.
abbrev pub applier : Executed → Bool → System
applier executed commits = world (some made_plan) no_event executed commits

abbrev pub applied : Executed → Bool → AppResult ApplyResult × Trace
applied executed commits = apply_plan (applier executed commits) apply_options []

-- The code of an error, or the reason of a result.
abbrev pub reason : AppResult ApplyResult × Trace → String
reason (ok r, t) = r.reason_code
reason (err e, t) = e.code

-- That, with the outcomes of its commits.
abbrev ends : AppResult ApplyResult × Trace → String × List Bool
ends out = (reason out, commits out.1)

create_plan_run : succeeds (create_plan planner plan_options []) ≡ true
unfolding create_plan ◌>>=◌ ask_or attempt lift pure perform refuse_if branch match_result map_err
create_plan_run = refl

committed_run : ends (applied (affected 2) true) ≡ ("applied", true ∷ [])
unfolding create_plan apply_plan ◌>>=◌ ask_or attempt lift pure perform refuse_if branch
    match_result map_err
committed_run = refl

uncertain_run : ends (applied (affected 2) false) ≡ ("commit_outcome_uncertain", false ∷ [])
unfolding create_plan apply_plan ◌>>=◌ ask_or attempt lift pure perform refuse_if branch
    match_result map_err
uncertain_run = refl

rolled_back_run : ends (applied (affected 3) true) ≡ ("affected_rows_mismatch", [])
unfolding create_plan apply_plan ◌>>=◌ ask_or attempt lift pure perform refuse_if branch
    match_result map_err
rolled_back_run = refl
