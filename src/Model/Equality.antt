-- ===== src/Model/Equality.antt =====
-- The derived `PartialEq` of the documents, as tests.
use mathlib.Core.Bool.{false≢true}
use dmlpact.Base.{not, refl, sym}
use dmlpact.Base.{ℤ, String, Bool, true, false, Option}
use dmlpact.Base.{ℕ_discrete, text_eq, eq_iff, ◌≡◌, Bool-cases, inl, inr, arith}
use dmlpact.Model.Data.{StatementKind, TransportPolicy, ReceiptState, DatabaseIdentity}

unfoldable pub String-discrete : Discrete String
unfolding Bool-cases
String-discrete s t = elim (Bool-cases (text_eq s t)) [
  | inl e ↦ yes ((eq_iff s t).0 e)
  | inr e ↦ no (λ p. ground (arith, (eq_iff s t).1 p))
]

unfoldable pub ℤ-discrete : Discrete ℤ
unfolding ℕ_discrete
ℤ-discrete = hlevel ℕ_discrete

unfoldable pub StatementKind-discrete : Discrete StatementKind
StatementKind-discrete = hlevel

unfoldable pub TransportPolicy-discrete : Discrete TransportPolicy
TransportPolicy-discrete = hlevel

unfoldable pub ReceiptState-discrete : Discrete ReceiptState
ReceiptState-discrete = hlevel

unfoldable pub Text_option-discrete : Discrete (Option String)
unfolding String-discrete
Text_option-discrete = hlevel String-discrete

unfoldable pub DatabaseIdentity-discrete : Discrete DatabaseIdentity
unfolding String-discrete ℤ-discrete
DatabaseIdentity-discrete = hlevel (String-discrete, ℤ-discrete)

-- `a == b` for a decidable equality; the tests of the program are of this form.
abbrev pub same {ℓ} : {A : Type ℓ} → Discrete A → A → A → Bool
same d a b = elim (d a b) [ yes _ ↦ true | no _ ↦ false ]

pub same-eq {ℓ} : {A : Type ℓ} (d : Discrete A) (a b : A) → same d a b ≡ true → a ≡ b
same-eq d a b h = go (d a b) h
  where
    go : (c : Dec (a ≡ b)) → elim c [ yes _ ↦ true | no _ ↦ false ] ≡ true → a ≡ b
    go (yes e) h = e
    go (no ne) h = absurd (false≢true h)

pub same_self {ℓ} : {A : Type ℓ} (d : Discrete A) (a : A) → same d a a ≡ true
same_self d a = go (d a a)
  where
    go : (c : Dec (a ≡ a)) → elim c [ yes _ ↦ true | no _ ↦ false ] ≡ true
    go (yes e) = refl
    go (no ne) = absurd (ne refl)

-- `a != b`.
abbrev pub differ {ℓ} : {A : Type ℓ} → Discrete A → A → A → Bool
differ d a b = not (same d a b)

pub differ-eq-false {ℓ} : {A : Type ℓ} (d : Discrete A) (a b : A) → differ d a b ≡ false → a ≡ b
differ-eq-false d a b h = elim (Bool-cases (same d a b)) [
  | inl e ↦ same-eq d a b e
  | inr e ↦ absurd (false≢true (sym (rw e at h)))
]

pub differ_self {ℓ} : {A : Type ℓ} (d : Discrete A) (a : A) → differ d a a ≡ false
differ_self d a = rw (same_self d a)
