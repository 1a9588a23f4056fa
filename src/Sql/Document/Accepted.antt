-- ===== src/Sql/Document/Accepted.antt =====
-- What an accepted SQL text is, in src/sql.rs.
use dmlpact.Base.{
  ◌≤◌, String, ◌<>◌, false, ◌≡◌, refl, ap, sym, ◌∙◌, Option, some, none, List, [], ◌∷◌,
}
use dmlpact.Base.{len, All, ltb-eq-false}
use dmlpact.Base.Text.{is_blank}
use dmlpact.Error.{AppError, AppResult, ok, err}
use dmlpact.Error.Pure.{>>=-eq-ok, refuse_if-eq-ok, ok_or-eq-ok, ok-injective}
use dmlpact.System.{System}
use dmlpact.Sql.Ast.{Expr, Statement}
use dmlpact.Sql.Forms.{
  AnalyzedSql, StatementDetails, expression_kind, first_unsafe, reject_unsafe_expressions,
  max_sql_bytes, policy,
}
use dmlpact.Sql.Analyze.{analyze_statement, single_statement}
use dmlpact.Sql.Document.{analyzed, analyze_sql}

-- An expression that the safety contract allows.
abbrev pub IsSafe : Expr → Type 0
IsSafe e = expression_kind e ≡ none

all_safe_cons :
    (e : Expr) (es : List Expr) (kind : Option String)
    → expression_kind e ≡ kind
    → (elim kind [ some k ↦ some k | none ↦ first_unsafe es ]) ≡ none
    → (expression_kind e ≡ none) × (first_unsafe es ≡ none)
all_safe_cons e es none same h = (same, h)
all_safe_cons e es (some k) same h = cc

All-IsSafe : (es : List Expr) → first_unsafe es ≡ none → All IsSafe es
unfolding first_unsafe
All-IsSafe [] h = tt
All-IsSafe (e ∷ es) h =
    let (here, rest) = all_safe_cons e es (expression_kind e) refl h in (here, All-IsSafe es rest)

abbrev verdict : (String → AppError) → Option String → AppResult (Unit {0})
verdict error none = ok tt
verdict error (some k) = err (error k)

none_found :
    (found : Option String) (error : String → AppError) → verdict error found ≡ ok tt → found ≡ none
none_found none error h = refl
none_found (some k) error h = cc

checked-IsSafe : (es : List Expr) → reject_unsafe_expressions es ≡ ok tt → All IsSafe es
unfolding reject_unsafe_expressions
checked-IsSafe es h = All-IsSafe es (
    none_found (first_unsafe es)
      (λ kind.
        policy "dynamic_expression_denied"
          (kind <> " expressions are not supported in v0.1 safety contracts"))
      h)

module _ (S : System) where
  open S use {parser}

  -- The text is one statement, of an accepted form, and every expression in it is safe.
  pub record IsAccepted (raw : String) (a : AnalyzedSql) : Type 0 where
    pub small : len raw ≤ max_sql_bytes
    pub not_blank : is_blank raw ≡ false
    pub statement : Statement parser.Node
    pub parsed : parser.parse_sql raw ≡ some (statement ∷ [])
    pub safe : All IsSafe (parser.visit_expressions statement)
    pub details : StatementDetails
    pub accepted : analyze_statement parser statement ≡ ok details
    pub result : a ≡ analyzed S raw statement details

  only_statement :
      (statements : List (Statement parser.Node)) {statement : Statement parser.Node}
      → single_statement parser statements ≡ ok statement
      → statements ≡ statement ∷ []
  unfolding single_statement
  only_statement [] h = cc
  only_statement (s ∷ []) h = ap (λ x. x ∷ []) (ok-injective h)
  only_statement (s ∷ u ∷ statements) h = cc

  -- An SQL text that `analyze_sql` accepts is not too large and not blank, holds exactly one
  -- statement, whose visited expressions are all safe and whose form `analyze_statement` accepts;
  -- the result is made from that text, that statement and its details.
  pub analyze_sql-IsAccepted :
      (raw : String) (a : AnalyzedSql) → analyze_sql S raw ≡ ok a → IsAccepted raw a
  unfolding analyze_sql
  analyze_sql-IsAccepted raw a run =
      let (_, small, run₁) = >>=-eq-ok _ _ run in
      let (_, filled, run₂) = >>=-eq-ok _ _ run₁ in
      let (statements, parsed, run₃) = >>=-eq-ok _ _ run₂ in
      let (statement, single, run₄) = >>=-eq-ok (single_statement parser statements) _ run₃ in
      let (_, safe, run₅) =
        >>=-eq-ok (reject_unsafe_expressions (parser.visit_expressions statement)) _ run₄ in
      let (details, accepted, result) = >>=-eq-ok (analyze_statement parser statement) _ run₅ in
      record {
        small = ltb-eq-false _ _ (refuse_if-eq-ok _ _ small);
        not_blank = refuse_if-eq-ok _ _ filled;
        statement = statement;
        parsed = ok_or-eq-ok _ _ parsed ∙ ap some (only_statement statements single);
        safe = checked-IsSafe _ safe;
        details = details;
        accepted = accepted;
        result = sym (ok-injective result);
      }
