-- ===== src/System/Monad.antt =====
-- Functions that touch the outside: they extend the trace, and stop at the first error.
use dmlpact.Base.{Bool, true, false, Option, none, some, [], ◌∷◌, ◌≡◌, refl}
use dmlpact.Error.{AppError, AppResult, ok, err}
use dmlpact.System.{Effect, Trace}

abbrev pub M {ℓ} : Type ℓ → Type ℓ
M A = Trace → AppResult A × Trace

module _ {ℓ} {A : Type ℓ} where
  unfoldable pub pure : A → M A
  pure a t = (ok a, t)

  unfoldable pub raise : AppError → M A
  raise e t = (err e, t)

  -- A value that was computed without touching the outside.
  unfoldable pub lift : AppResult A → M A
  lift r t = (r, t)

  -- A step that records its answer.
  unfoldable pub perform : (A → Effect) → (Trace → A) → M A
  perform e answer t = let a = answer t in (ok a, e a ∷ t)

  -- A step whose answer may be missing, which is the given error.
  unfoldable pub ask_or : Effect → (Trace → Option A) → AppError → M A
  ask_or e answer error t = elim (answer t) [ none ↦ (err error, e ∷ t) | some a ↦ (ok a, e ∷ t) ]

-- A step that succeeds or fails, and records which.
unfoldable pub attempt : (Bool → Effect) → (Trace → Bool) → AppError → M (Unit {0})
attempt e answer error t = elim (answer t) [
  | true ↦ (ok tt, e true ∷ t)
  | false ↦ (err error, e false ∷ t)
]

infixl 5 ◌>>=◌ ◌>>◌
unfoldable pub ◌>>=◌ {ℓ κ} : {A : Type ℓ} {B : Type κ} → M A → (A → M B) → M B
◌>>=◌ m f t = let (r, t') = m t in elim r [ ok a ↦ f a t' | err e ↦ (err e, t') ]

abbrev pub ◌>>◌ {ℓ} : {B : Type ℓ} → M (Unit {0}) → M B → M B
m >> k = m >>= λ _. k

unfoldable pub refuse_if : Bool → AppError → M (Unit {0})
refuse_if test e t = elim test [ true ↦ (err e, t) | false ↦ (ok tt, t) ]

-- `if test { x } else { y }`.
unfoldable pub branch {ℓ} : {A : Type ℓ} → Bool → M A → M A → M A
branch test x y t = elim test [ true ↦ x t | false ↦ y t ]

-- `match m { Ok(a) => f(a), Err(e) => g(e) }`.
unfoldable pub match_result {ℓ κ} :
    {A : Type ℓ} {B : Type κ} → M A → (AppError → M B) → (A → M B) → M B
match_result m g f t = let (r, t') = m t in elim r [ ok a ↦ f a t' | err e ↦ g e t' ]

-- `m.map_err(|_| error)`.
unfoldable pub map_err {ℓ} : {A : Type ℓ} → M A → AppError → M A
map_err m error t = let (r, t') = m t in elim r [ ok a ↦ (ok a, t') | err _ ↦ (err error, t') ]

-- A chain that succeeds has passed each of its steps.
pair-eq-ok {ℓ κ} :
    {A : Type ℓ} {B : Type κ} (p : AppResult A × Trace) (f : A → M B) {b : B} {t'' : Trace}
    → ◌>>=◌ (λ _. p) f [] ≡ (ok b, t'')
    → (a : A) × (t' : Trace) × (p ≡ (ok a, t')) × (f a t' ≡ (ok b, t''))
unfolding ◌>>=◌
pair-eq-ok (ok a, t') f h = (a, t', refl, h)
pair-eq-ok (err e, t') f h = cc

pub >>=-eq-ok {ℓ κ} :
    {A : Type ℓ} {B : Type κ} (m : M A) (f : A → M B) (t : Trace) {b : B} {t'' : Trace}
    → (m >>= f) t ≡ (ok b, t'')
    → (a : A) × (t' : Trace) × (m t ≡ (ok a, t')) × (f a t' ≡ (ok b, t''))
unfolding ◌>>=◌
>>=-eq-ok m f t h = pair-eq-ok (m t) f h
