-- ===== src/System/Rules.antt =====
-- Proof rules for functions that touch the outside: to follow a test or a match into its branches,
-- and to know which steps change something outside.
use dmlpact.Base.{Bool, true, false, Option, none, some, [], ◌∷◌, ◌≡◌, refl, ap, sym, subst, ◌∙◌}
use dmlpact.Error.{AppError, AppResult, ok, err}
use dmlpact.Error.Pure.{ok-injective}
use dmlpact.System.{Effect, Trace}
use dmlpact.System.Monad.{M, pure, lift, ask_or, attempt, ◌>>=◌, branch, match_result, refuse_if}

-- `P` holds of the run of `m` from `t`.
pub record Reaches {ℓ} {B : Type ℓ} (P : AppResult B × Trace → Type 0) (m : M B) (t : Trace)
    : Type 0 where
  pub run : P (m t)

module _ {ℓ κ} {A : Type ℓ} {B : Type κ} {P : AppResult B × Trace → Type 0} where
  match_pair :
      (g : AppError → M B) (f : A → M B) (p : AppResult A × Trace)
      → ((e : AppError) (t' : Trace) → p ≡ (err e, t') → Reaches P (g e) t')
      → ((a : A) (t' : Trace) → p ≡ (ok a, t') → Reaches P (f a) t')
      → P (match_result (λ _. p) g f [])
  unfolding match_result
  match_pair g f (ok a, t') on_err on_ok = (on_ok a t' refl).run
  match_pair g f (err e, t') on_err on_ok = (on_err e t' refl).run

  -- What both arms of a match reach, the match reaches.
  pub match_rule :
      (m : M A) (g : AppError → M B) (f : A → M B) (t : Trace)
      → ((e : AppError) (t' : Trace) → m t ≡ (err e, t') → Reaches P (g e) t')
      → ((a : A) (t' : Trace) → m t ≡ (ok a, t') → Reaches P (f a) t')
      → Reaches P (match_result m g f) t
  unfolding match_result
  match_rule m g f t on_err on_ok = record { run = match_pair g f (m t) on_err on_ok }

  bind_pair :
      (f : A → M B) (p : AppResult A × Trace)
      → ((e : AppError) (t' : Trace) → p ≡ (err e, t') → P (err e, t'))
      → ((a : A) (t' : Trace) → p ≡ (ok a, t') → Reaches P (f a) t')
      → P (◌>>=◌ (λ _. p) f [])
  unfolding ◌>>=◌
  bind_pair f (ok a, t') on_err on_ok = (on_ok a t' refl).run
  bind_pair f (err e, t') on_err on_ok = on_err e t' refl

  -- What a failing step and the rest of a succeeding one reach, the chain reaches.
  pub bind_rule :
      (m : M A) (f : A → M B) (t : Trace)
      → ((e : AppError) (t' : Trace) → m t ≡ (err e, t') → P (err e, t'))
      → ((a : A) (t' : Trace) → m t ≡ (ok a, t') → Reaches P (f a) t')
      → Reaches P (m >>= f) t
  unfolding ◌>>=◌
  bind_rule m f t on_err on_ok = record { run = bind_pair f (m t) on_err on_ok }

module _ {κ} {B : Type κ} {P : AppResult B × Trace → Type 0} where
  branch_run :
      (test : Bool) (x y : M B) (t : Trace)
      → (test ≡ true → Reaches P x t)
      → (test ≡ false → Reaches P y t)
      → P (branch test x y t)
  unfolding branch
  branch_run true x y t on_true on_false = (on_true refl).run
  branch_run false x y t on_true on_false = (on_false refl).run

  pub branch_rule :
      (test : Bool) (x y : M B) (t : Trace)
      → (test ≡ true → Reaches P x t)
      → (test ≡ false → Reaches P y t)
      → Reaches P (branch test x y) t
  branch_rule test x y t on_true on_false = record { run = branch_run test x y t on_true on_false }

-- The trace behind an attempted step, by its outcome.
abbrev Attempted : (Bool → Effect) → Trace → AppResult (Unit {0}) × Trace → Type 0
Attempted e t (ok _, t') = t' ≡ e true ∷ t
Attempted e t (err _, t') = t' ≡ e false ∷ t

attempted :
    (e : Bool → Effect) (b : Bool) (error : AppError) (t : Trace)
    → Attempted e t (attempt e (λ _. b) error t)
unfolding attempt
attempted e true error t = refl
attempted e false error t = refl

module _ (e : Bool → Effect) (answer : Trace → Bool) (error : AppError) (t : Trace)
    {t' : Trace} where
  pub attempt-eq-ok : {u : Unit {0}} → attempt e answer error t ≡ (ok u, t') → t' ≡ e true ∷ t
  unfolding attempt
  attempt-eq-ok run = subst (Attempted e t) run (attempted e (answer t) error t)

  pub attempt-eq-err : {x : AppError} → attempt e answer error t ≡ (err x, t') → t' ≡ e false ∷ t
  unfolding attempt
  attempt-eq-err run = subst (Attempted e t) run (attempted e (answer t) error t)

-- The steps that can leave something behind: statements, the end of a transaction, and files.
abbrev pub is_change : Effect → Bool
is_change (Effect.execute _ _) = true
is_change (Effect.commit _) = true
is_change Effect.rollback = true
is_change (Effect.create_file _ _) = true
is_change (Effect.write_file _ _ _) = true
is_change _ = false

abbrev pub keep_change : Bool → Effect → Trace → Trace
keep_change true e t = e ∷ t
keep_change false e t = t

-- The changes of a trace, in its order.
abbrev pub changes : Trace → Trace
changes [] = []
changes (e ∷ t) = keep_change (is_change e) e (changes t)

-- A function that only looks.
pub record IsQuiet {ℓ} {A : Type ℓ} (m : M A) : Type 0 where
  pub quiet : (t : Trace) → changes (m t).1 ≡ changes t

module _ {ℓ} {A : Type ℓ} where
  pub pure-IsQuiet : (a : A) → IsQuiet (pure a)
  unfolding pure
  pure-IsQuiet a = record { quiet = λ t. refl }

  pub lift-IsQuiet : (r : AppResult A) → IsQuiet (lift r)
  unfolding lift
  lift-IsQuiet r = record { quiet = λ t. refl }

  pub ask_or-IsQuiet :
      (e : Effect) (answer : Trace → Option A) (error : AppError)
      → is_change e ≡ false
      → IsQuiet (ask_or e answer error)
  unfolding ask_or
  ask_or-IsQuiet e answer error h = record { quiet = λ t. go (answer t) t }
    where
      go : (o : Option A) (t : Trace) → changes (ask_or e (λ _. o) error t).1 ≡ changes t
      go none t = ap (λ b. keep_change b e (changes t)) h
      go (some a) t = ap (λ b. keep_change b e (changes t)) h

pub attempt-IsQuiet :
    (e : Bool → Effect) (answer : Trace → Bool) (error : AppError)
    → ((b : Bool) → is_change (e b) ≡ false)
    → IsQuiet (attempt e answer error)
unfolding attempt
attempt-IsQuiet e answer error h = record { quiet = λ t. go (answer t) t }
  where
    go : (b : Bool) (t : Trace) → changes (attempt e (λ _. b) error t).1 ≡ changes t
    go true t = ap (λ b. keep_change b (e true) (changes t)) (h true)
    go false t = ap (λ b. keep_change b (e false) (changes t)) (h false)

refuse_quiet : (b : Bool) (e : AppError) (t : Trace) → changes (refuse_if b e t).1 ≡ changes t
unfolding refuse_if
refuse_quiet true e t = refl
refuse_quiet false e t = refl

pub refuse_if-IsQuiet : (b : Bool) (e : AppError) → IsQuiet (refuse_if b e)
refuse_if-IsQuiet b e = record { quiet = refuse_quiet b e }

module _ {ℓ κ} {A : Type ℓ} {B : Type κ} where
  bind_pair-quiet :
      (p : AppResult A × Trace) (f : A → M B)
      → ((a : A) → IsQuiet (f a))
      → changes (◌>>=◌ (λ _. p) f []).1 ≡ changes p.1
  unfolding ◌>>=◌
  bind_pair-quiet (ok a, t') f h = (h a).quiet t'
  bind_pair-quiet (err e, t') f h = refl

  pub >>=-IsQuiet :
      (m : M A) (f : A → M B) → IsQuiet m → ((a : A) → IsQuiet (f a)) → IsQuiet (m >>= f)
  unfolding ◌>>=◌
  >>=-IsQuiet m f q h = record { quiet = λ t. bind_pair-quiet (m t) f h ∙ q.quiet t }

-- The rules for a `do` block that only looks.
pub ruleset quiet_rules =
    (pure-IsQuiet, lift-IsQuiet, ask_or-IsQuiet, attempt-IsQuiet, refuse_if-IsQuiet, >>=-IsQuiet)

-- A function that only looks, at a run that is known.
pub quiet_run {ℓ} :
    {A : Type ℓ} {m : M A}
    → IsQuiet m
    → (t : Trace) {r : AppResult A} {t' : Trace} → m t ≡ (r, t')
    → changes t' ≡ changes t
quiet_run q t e = ap (λ p. changes p.1) (sym e) ∙ q.quiet t

-- A computed value that was lifted is the answer.
pub lifted_answer {ℓ} :
    {A : Type ℓ} (x : AppResult A) (t : Trace) {r : AppResult A} {t' : Trace}
    → lift x t ≡ (r, t')
    → x ≡ r
unfolding lift
lifted_answer x t run = ap (λ p. p.0) run

-- A guard that was passed did not hold.
pub refused_not :
    (b : Bool) (e : AppError) (t : Trace) {u : Unit {0}} {t' : Trace}
    → refuse_if b e t ≡ (ok u, t')
    → b ≡ false
unfolding refuse_if
refused_not true e t run = cc
refused_not false e t run = refl

-- A step that only looks leaves the changes `before` as they are, for its failure and for the rest.
pub quiet_rule {ℓ κ} :
    {A : Type ℓ} {B : Type κ} {P : AppResult B × Trace → Type 0} {before : Trace} (m : M A)
    (f : A → M B) (t : Trace)
    → IsQuiet m
    → changes t ≡ before
    → ((e : AppError) (t' : Trace) → changes t' ≡ before → P (err e, t'))
    → ((a : A) (t' : Trace) → m t ≡ (ok a, t') → changes t' ≡ before → Reaches P (f a) t')
    → Reaches P (m >>= f) t
quiet_rule m f t looks same on_err rest =
    bind_rule m f t (λ e t' run. on_err e t' (quiet_run looks t run ∙ same))
      λ a t' run. rest a t' run (quiet_run looks t run ∙ same)

-- The answer behind a question that was answered.
asked {ℓ} :
    {A : Type ℓ} (e : Effect) (error : AppError) (t : Trace) (o : Option A) {a : A} {t' : Trace}
    → ask_or e (λ _. o) error t ≡ (ok a, t')
    → o ≡ some a
unfolding ask_or
asked e error t none run = cc
asked e error t (some r) run = ap some (ok-injective (ap (λ p. p.0) run))

pub asked_answer {ℓ} :
    {A : Type ℓ} (e : Effect) (answer : Trace → Option A) (error : AppError) (t : Trace) {a : A}
    {t' : Trace}
    → ask_or e answer error t ≡ (ok a, t')
    → answer t ≡ some a
unfolding ask_or
asked_answer e answer error t run = asked e error t (answer t) run
