-- ===== src/Error/Failing.antt =====
-- The errors that a chain of `?` can end with.
use dmlpact.Base.{String, Bool, true, false, Option, none, some, ◌≡◌, refl, subst, if◌then◌else◌}
use dmlpact.Error.{AppError, AppResult, ok, err, ErrorClass}
use dmlpact.Error.Pure.{◌>>=◌, refuse_if, ok_or}

abbrev ErrorIs {ℓ} : {A : Type ℓ} → (AppError → Type 0) → AppResult A → Type 0
ErrorIs P (ok a) = Unit
ErrorIs P (err e) = P e

-- If there is an error, it is of this class.
pub record FailsWith {ℓ} {A : Type ℓ} (class : ErrorClass) (r : AppResult A) : Type 0 where
  pub error : ErrorIs (λ e. e.class ≡ class) r

refused :
    (class : ErrorClass) (b : Bool) (code message : String)
    → ErrorIs
        (λ e. e.class ≡ class)
        (refuse_if b (record { class = class; code = code; message = message }))
refused class true code message = refl
refused class false code message = tt

missing {ℓ} :
    {A : Type ℓ} (class : ErrorClass) (o : Option A) (code message : String)
    → ErrorIs
        (λ e. e.class ≡ class)
        (ok_or o (record { class = class; code = code; message = message }))
missing class none code message = refl
missing class (some a) code message = tt

module _ {class : ErrorClass} where
  pub ok-FailsWith {ℓ} : {A : Type ℓ} (a : A) → FailsWith class (ok a)
  ok-FailsWith a = record { error = tt }

  pub err-FailsWith {ℓ} :
      {A : Type ℓ} (code message : String)
      → FailsWith {A = A} class (err (record { class = class; code = code; message = message }))
  err-FailsWith code message = record { error = refl }

  pub refuse_if-FailsWith :
      (b : Bool) (code message : String)
      → FailsWith class (refuse_if b (record { class = class; code = code; message = message }))
  refuse_if-FailsWith b code message = record { error = refused class b code message }

  pub ok_or-FailsWith {ℓ} :
      {A : Type ℓ} (o : Option A) (code message : String)
      → FailsWith class (ok_or o (record { class = class; code = code; message = message }))
  ok_or-FailsWith o code message = record { error = missing class o code message }

  chained {ℓ κ} :
      {A : Type ℓ} {B : Type κ} (first : AppResult A) (next : A → AppResult B)
      → FailsWith class first
      → ((a : A) → FailsWith class (next a))
      → ErrorIs (λ e. e.class ≡ class) (first >>= next)
  chained (ok a) next f g = (g a).error
  chained (err e) next f g = f.error

  pub >>=-FailsWith {ℓ κ} :
      {A : Type ℓ} {B : Type κ} (first : AppResult A) (next : A → AppResult B)
      → FailsWith class first
      → ((a : A) → FailsWith class (next a))
      → FailsWith class (first >>= next)
  >>=-FailsWith first next f g = record { error = chained first next f g }

  chosen {ℓ} :
      {A : Type ℓ} (b : Bool) (x y : AppResult A)
      → FailsWith class x
      → FailsWith class y
      → ErrorIs (λ e. e.class ≡ class) (if b then x else y)
  chosen true x y f g = f.error
  chosen false x y f g = g.error

  pub if-FailsWith {ℓ} :
      {A : Type ℓ} (b : Bool) (x y : AppResult A)
      → FailsWith class x
      → FailsWith class y
      → FailsWith class (if b then x else y)
  if-FailsWith b x y f g = record { error = chosen b x y f g }

-- A guard that is passed does not matter.
pub passed-FailsWith {ℓ} :
    {A : Type ℓ} {class : ErrorClass} (b : Bool) (e : AppError) (next : Unit {0} → AppResult A)
    → b ≡ false
    → FailsWith class (next tt)
    → FailsWith class (refuse_if b e >>= next)
passed-FailsWith b e next passed rest = rw passed rest

-- The class of the error that there is.
pub FailsWith-class {ℓ} :
    {A : Type ℓ} {class : ErrorClass} (r : AppResult A) (e : AppError)
    → FailsWith class r
    → r ≡ err e
    → e.class ≡ class
FailsWith-class {class} r e fails is = subst (ErrorIs (λ x. x.class ≡ class)) is fails.error

pub ruleset failing_rules =
    (ok-FailsWith, err-FailsWith, refuse_if-FailsWith, ok_or-FailsWith, >>=-FailsWith, if-FailsWith)
