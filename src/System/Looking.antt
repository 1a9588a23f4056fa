-- ===== src/System/Looking.antt =====
-- More functions that only look: questions that are always answered, tests and matches.
use dmlpact.Base.{Bool, true, false, [], ◌≡◌, ap, ◌∙◌}
use dmlpact.Error.{AppError, AppResult, ok, err}
use dmlpact.System.{Effect, Trace}
use dmlpact.System.Monad.{M, perform, branch, match_result}
use dmlpact.System.Rules.{is_change, keep_change, changes, IsQuiet, quiet_rules}

pub perform-IsQuiet {ℓ} :
    {A : Type ℓ} (e : A → Effect) (answer : Trace → A)
    → ((a : A) → is_change (e a) ≡ false)
    → IsQuiet (perform e answer)
unfolding perform
perform-IsQuiet e answer h = record {
  quiet = λ t. ap (λ b. keep_change b (e (answer t)) (changes t)) (h (answer t));
}

module _ {ℓ} {A : Type ℓ} where
  branch_quiet :
      (b : Bool) (x y : M A) (t : Trace)
      → IsQuiet x
      → IsQuiet y
      → changes (branch b x y t).1 ≡ changes t
  unfolding branch
  branch_quiet true x y t q q' = q.quiet t
  branch_quiet false x y t q q' = q'.quiet t

  pub branch-IsQuiet : (b : Bool) (x y : M A) → IsQuiet x → IsQuiet y → IsQuiet (branch b x y)
  branch-IsQuiet b x y q q' = record { quiet = λ t. branch_quiet b x y t q q' }

module _ {ℓ κ} {A : Type ℓ} {B : Type κ} where
  match_quiet :
      (p : AppResult A × Trace) (g : AppError → M B) (f : A → M B)
      → ((e : AppError) → IsQuiet (g e))
      → ((a : A) → IsQuiet (f a))
      → changes (match_result (λ _. p) g f []).1 ≡ changes p.1
  unfolding match_result
  match_quiet (ok a, t') g f q q' = (q' a).quiet t'
  match_quiet (err e, t') g f q q' = (q e).quiet t'

  pub match_result-IsQuiet :
      (m : M A) (g : AppError → M B) (f : A → M B)
      → IsQuiet m
      → ((e : AppError) → IsQuiet (g e))
      → ((a : A) → IsQuiet (f a))
      → IsQuiet (match_result m g f)
  unfolding match_result
  match_result-IsQuiet m g f q on_err on_ok = record {
    quiet = λ t. match_quiet (m t) g f on_err on_ok ∙ q.quiet t;
  }

-- The rules for these, with those for `do` blocks.
pub ruleset looking_rules = (quiet_rules, perform-IsQuiet, branch-IsQuiet, match_result-IsQuiet)
