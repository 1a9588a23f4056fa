-- ===== src/Cli/Exit.antt =====
-- What the exit code of `apply` in src/main.rs tells.
use dmlpact.Base.{ℕ, true, ◌≡◌, ap, ◌∙◌, sym, subst, ◌⊎◌, inl, inr, ◌∷◌}
use dmlpact.Error.{AppResult, ok, err, exit_code, ErrorClass}
use dmlpact.Error.Pure.{ok-injective}
use dmlpact.Model.{ReceiptState, ApplyResult, Document}
use dmlpact.System.{System, Trace}
use dmlpact.System.Monad.{pure}
use dmlpact.System.Rules.{changes, Reaches, bind_rule, match_rule, quiet_run}
use dmlpact.Engine.Apply.{ApplyOptions, apply_plan}
use dmlpact.Engine.Apply.Outcome.{Outcome, AnyError}
use dmlpact.Engine.Apply.Order.{Applied, apply_plan-Applied}
use dmlpact.Engine.Apply.Trail.{commits, commits-changes, Finished-commits}
use dmlpact.Cli.Args.{database_options, ApplyArgs, Command, Parsed}
use dmlpact.Cli.{Ending, apply_code, emit_json, emit_error, run_apply, run, main}
use dmlpact.Cli.Looking.{emit_json-IsQuiet}

code-injective : {m n : ℕ} → Ending.code m ≡ Ending.code n → m ≡ n
code-injective h = cc

class_nonzero : (c : ErrorClass) → exit_code c ≡ 0 → ⊥
unfolding exit_code
class_nonzero ErrorClass.io h = cc
class_nonzero ErrorClass.usage h = cc
class_nonzero ErrorClass.policy h = cc
class_nonzero ErrorClass.budget h = cc
class_nonzero ErrorClass.contract h = cc

uncertain_nonzero :
    (state : ReceiptState) → apply_code state ≡ 0 → state ≡ ReceiptState.uncertain → ⊥
unfolding apply_code exit_code
uncertain_nonzero ReceiptState.prepared h e = cc
uncertain_nonzero ReceiptState.committed h e = cc
uncertain_nonzero ReceiptState.rolled_back h e = cc
uncertain_nonzero ReceiptState.refused h e = cc
uncertain_nonzero ReceiptState.uncertain h e = cc

-- No commit was tried, or one was seen to succeed.
abbrev pub Settled : Trace → Trace → Type 0
Settled before after = (commits after ≡ commits before) ⊎ (commits after ≡ true ∷ commits before)

module _ (S : System) where
  outcome-Settled :
      (options : ApplyOptions) (t t' : Trace) (r : ApplyResult)
      → apply_code r.state ≡ 0
      → Applied S options (changes t) (ok r, t')
      → Settled t t'
  outcome-Settled options t t' r zero_code (Applied.stopped e e' _) = cc
  outcome-Settled options t t' r zero_code
        (Applied.opened plan analyzed journal bytes accepted prepared line here outcome) =
      elim outcome [
        | Outcome.refused f ↦
            inl (Finished-commits S journal _ _ AnyError _ (ok r, t') f ∙ commits-changes t)
        | Outcome.failed code sent f ↦
            inl (Finished-commits S journal _ _ AnyError _ (ok r, t') f ∙ commits-changes t)
        | Outcome.mismatched rows ne sent f ↦
            inl (Finished-commits S journal _ _ AnyError _ (ok r, t') f ∙ commits-changes t)
        | Outcome.uncertain rows e sent f ↦ absurd (uncertain_nonzero r.state zero_code f.0)
        | Outcome.committed rows e sent f ↦ inr (
            Finished-commits S journal _ _ AnyError _ (ok r, t') (f.0, f.1, f.2, f.3)
            ∙ ap (λ l. true ∷ l) (commits-changes t))
      ]

  -- If the exit code is 0, the commits are settled.
  abbrev EndsSettled : Trace → AppResult Ending × Trace → Type 0
  EndsSettled before (ok (Ending.code code), t) = code ≡ 0 → Settled before t
  EndsSettled before (ok Ending.panicked, t) = Unit
  EndsSettled before (err e, t) = Unit

  -- A step that only looks does not matter.
  later_Settled :
      (before t t' : Trace) → changes t' ≡ changes t → Settled before t → Settled before t'
  later_Settled before t t' same settled =
      subst (λ c. (c ≡ commits before) ⊎ (c ≡ true ∷ commits before))
        (sym (sym (commits-changes t') ∙ ap commits same ∙ commits-changes t)) settled

  run_apply-EndsSettled :
      (args : ApplyArgs) (t : Trace) → Reaches (EndsSettled t) (run_apply S args) t
  unfolding run_apply pure
  run_apply-EndsSettled args t =
      let options : ApplyOptions = record {
        sql_path = args.sql;
        plan_path = args.plan;
        receipt_path = args.receipt;
        database = database_options args.database;
      } in
      bind_rule (apply_plan S options) _ t (λ e t₁ run₁. tt)
        λ r t₁ run₁.
          bind_rule (emit_json S (Document.applied r)) _ t₁ (λ e t₂ run₂. tt)
            λ _ t₂ run₂. record {
              run = λ zero_code.
                  later_Settled t t₁ t₂
                    (quiet_run (emit_json-IsQuiet S (Document.applied r)) t₁ run₂)
                    (outcome-Settled options t t₁ r zero_code (
                      subst (Applied S options (changes t)) run₁ (apply_plan-Applied S options t)));
            }

  abbrev MainSettled : Trace → AppResult Ending × Trace → Type 0
  MainSettled before out = out.0 ≡ ok (Ending.code 0) → Settled before out.1

  EndsSettled-code :
      (before : Trace) (ending : Ending) (t : Trace)
      → EndsSettled before (ok ending, t)
      → ending ≡ Ending.code 0
      → Settled before t
  EndsSettled-code before (Ending.code code) t settled h = settled (code-injective h)
  EndsSettled-code before Ending.panicked t settled h = cc

  main-MainSettled :
      (args : ApplyArgs) (t : Trace)
      → Reaches (MainSettled t) (main S (Parsed.command (Command.apply args))) t
  unfolding main run pure
  main-MainSettled args t =
      match_rule (run_apply S args) _ _ t
        (λ error t₁ run₁.
          bind_rule (emit_error S error) _ t₁ (λ e t₂ run₂ zero_code. cc)
            λ _ t₂ run₂. record {
              run = λ zero_code.
                  absurd (class_nonzero error.class (code-injective (ok-injective zero_code)));
            })
        λ ending t₁ run₁. record {
          run = λ zero_code.
              EndsSettled-code t ending t₁
                (subst (EndsSettled t) run₁ (run_apply-EndsSettled args t).run)
                (ok-injective zero_code);
        }

  -- If a process that was asked to `apply` exits with code 0, it has tried no commit, or its commit
  -- was seen to succeed: an unobserved commit never exits with 0.
  pub main-Settled :
      (args : ApplyArgs) (t : Trace)
      → (main S (Parsed.command (Command.apply args)) t).0 ≡ ok (Ending.code 0)
      → Settled t (main S (Parsed.command (Command.apply args)) t).1
  main-Settled args t = (main-MainSettled args t).run
