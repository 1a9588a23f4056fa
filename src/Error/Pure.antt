-- ===== src/Error/Pure.antt =====
-- The `?` of functions that touch nothing outside themselves, and what a successful chain tells.
use dmlpact.Base.{Bool, true, false, ◌≡◌, refl, ap, Option, none, some, arith}
use dmlpact.Error.{AppError, AppResult, ok, err}

infixl 5 ◌>>=◌
abbrev pub ◌>>=◌ {κ ℓ} : {B : Type κ} {A : Type ℓ} → AppResult A → (A → AppResult B) → AppResult B
err error >>= next = err error
ok value >>= next = next value

-- `m?;`, which drops the value.
infixl 5 ◌>>◌
abbrev pub ◌>>◌ {κ} : {B : Type κ} → AppResult (Unit {0}) → AppResult B → AppResult B
first >> second = first >>= λ _. second

-- `if test { return Err(error) }`.
abbrev pub refuse_if : Bool → AppError → AppResult (Unit {0})
refuse_if true e = err e
refuse_if false e = ok tt

-- `ok_or_else`.
abbrev pub ok_or {ℓ} : {A : Type ℓ} → Option A → AppError → AppResult A
ok_or none e = err e
ok_or (some a) e = ok a

pub >>=-eq-ok {κ ℓ} :
    {B : Type κ} {A : Type ℓ} (first : AppResult A) (next : A → AppResult B) {last : B}
    → (first >>= next) ≡ ok last
    → (value : A) × (first ≡ ok value) × (next value ≡ ok last)
>>=-eq-ok (err error) next run = cc
>>=-eq-ok (ok value) next run = (value, refl, run)

pub refuse_if-eq-ok : (b : Bool) (e : AppError) {u : Unit {0}} → refuse_if b e ≡ ok u → b ≡ false
refuse_if-eq-ok true e h = cc
refuse_if-eq-ok false e h = refl

pub ok_or-eq-ok {ℓ} :
    {A : Type ℓ} (o : Option A) (e : AppError) {a : A} → ok_or o e ≡ ok a → o ≡ some a
ok_or-eq-ok none e h = cc
ok_or-eq-ok (some a) e h = ground arith

-- The value of a result.
abbrev value_or {ℓ} : {A : Type ℓ} → A → AppResult A → A
value_or a (ok x) = x
value_or a (err _) = a

pub ok-injective {ℓ} : {A : Type ℓ} {a b : A} → ok a ≡ ok b → a ≡ b
ok-injective {a} e = ap (value_or a) e

-- The error of a result.
abbrev error_or {ℓ} : {A : Type ℓ} → AppError → AppResult A → AppError
error_or e (ok x) = e
error_or e (err x) = x

pub err-injective {ℓ} :
    {A : Type ℓ} {e e' : AppError} → Path (AppResult A) (err e) (err e') → e ≡ e'
err-injective {e} same = ap (error_or e) same
