-- ===== src/Tests/Commands.antt =====
-- The theorems on the process at concrete command lines.
use dmlpact.Base.{true, false, [], ◌≡◌, refl}
use dmlpact.Error.{ok, exit_code}
use dmlpact.System.{affected}
use dmlpact.System.Monad.{
  ◌>>=◌, ask_or, attempt, lift, pure, perform, refuse_if, branch, match_result, map_err,
}
use dmlpact.System.Rules.{changes}
use dmlpact.Cli.Args.{ApplyArgs, Command, Parsed}
use dmlpact.Cli.{Ending, main}
use dmlpact.Cli.Exit.{Settled, main-Settled}
use dmlpact.Cli.Looking.{main-IsQuiet}
use dmlpact.Engine.Planning.{create_plan}
use dmlpact.Tests.Runs.{planner, applier}

abbrev apply_args : ApplyArgs
apply_args = record {
  sql = "a.sql";
  plan = "plan.json";
  receipt = "receipt.ndjson";
  database = record { database_env = "DB"; allow_insecure_localhost = true };
}

abbrev command_line : Parsed
command_line = Parsed.command (Command.apply apply_args)

main-Settled_example : Settled [] (main (applier (affected 2) true) command_line []).1
unfolding create_plan main ◌>>=◌ ask_or attempt lift pure perform refuse_if branch match_result
    map_err exit_code
main-Settled_example = main-Settled (applier (affected 2) true) apply_args [] refl

main-IsQuiet_example : changes (main planner (Parsed.command (Command.lint "a.sql")) []).1 ≡ []
main-IsQuiet_example = main-IsQuiet planner (Command.lint "a.sql") [] tt

-- Help that cannot be written.
help_panics :
    (main (record planner { write_text = λ _ _. false }) (Parsed.display "help") []).0
    ≡ ok Ending.panicked
unfolding main ◌>>=◌ perform pure
help_panics = refl
