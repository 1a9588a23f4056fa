-- ===== src/System/Steps.antt =====
-- What a function that touches the outside returns, step by step, from the answers that it gets.
use dmlpact.Base.{Bool, true, false, Option, some, [], ◌∷◌, ◌≡◌, refl, ap, ◌∙◌}
use dmlpact.Error.{AppError, AppResult, ok, err}
use dmlpact.System.{Effect, Trace}
use dmlpact.System.Monad.{M, lift, ask_or, attempt, refuse_if, branch, match_result, map_err, ◌>>=◌}

module _ {ℓ κ} {A : Type ℓ} {B : Type κ} (m : M A) (f : A → M B) where
  -- A step that succeeds, and the rest.
  pub step :
      (t : Trace) {a : A} {t' : Trace} {out : AppResult B × Trace}
      → m t ≡ (ok a, t')
      → f a t' ≡ out
      → (m >>= f) t ≡ out
  unfolding ◌>>=◌
  step t run rest = ap (λ (p : AppResult A × Trace). ◌>>=◌ (λ _. p) f []) run ∙ rest

  -- A step that fails is the end.
  pub step_fails :
      (t : Trace) {e : AppError} {t' : Trace} → m t ≡ (err e, t') → (m >>= f) t ≡ (err e, t')
  unfolding ◌>>=◌
  step_fails t run = ap (λ (p : AppResult A × Trace). ◌>>=◌ (λ _. p) f []) run

module _ {ℓ} {A : Type ℓ} where
  pub lifted : {r : AppResult A} {a : A} (t : Trace) → r ≡ ok a → lift r t ≡ (ok a, t)
  unfolding lift
  lifted t e = ap (λ r. (r, t)) e

  pub asked :
      (e : Effect) (answer : Trace → Option A) (error : AppError) (t : Trace) {a : A}
      → answer t ≡ some a
      → ask_or e answer error t ≡ (ok a, e ∷ t)
  unfolding ask_or
  asked e answer error t same = ap (λ o. ask_or e (λ _. o) error t) same

  pub branched_false : (b : Bool) (x y : M A) (t : Trace) → b ≡ false → branch b x y t ≡ y t
  unfolding branch
  branched_false b x y t same = rw same refl

pub not_refused :
    (b : Bool) (error : AppError) (t : Trace) → b ≡ false → refuse_if b error t ≡ (ok tt, t)
unfolding refuse_if
not_refused b error t same = rw same refl

pub attempted :
    (e : Bool → Effect) (answer : Trace → Bool) (error : AppError) (t : Trace)
    → answer t ≡ true
    → attempt e answer error t ≡ (ok tt, e true ∷ t)
unfolding attempt
attempted e answer error t same = ap (λ b. attempt e (λ _. b) error t) same

-- A match on a step that succeeds.
pub matched {ℓ κ} :
    {A : Type ℓ} {B : Type κ} (m : M A) (g : AppError → M B) (f : A → M B) (t : Trace) {a : A}
    {t' : Trace} {out : AppResult B × Trace}
    → m t ≡ (ok a, t')
    → f a t' ≡ out
    → match_result m g f t ≡ out
unfolding match_result
matched m g f t run rest = ap (λ p. match_result (λ _. p) g f []) run ∙ rest

-- A result keeps its value when only its errors are mapped.
pub kept {ℓ} :
    {A : Type ℓ} (m : M A) (error : AppError) (t : Trace) {a : A} {t' : Trace}
    → m t ≡ (ok a, t')
    → map_err m error t ≡ (ok a, t')
unfolding map_err
kept m error t run = ap (λ p. map_err (λ _. p) error []) run
