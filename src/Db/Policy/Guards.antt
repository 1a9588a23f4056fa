-- ===== src/Db/Policy/Guards.antt =====
-- What a table must be for `enforce_table_policy` of src/db.rs to let it through.
use dmlpact.Base.{Bool, true, false, not, ◌&&◌, eq_iff, ◌≡◌, List, [], ◌∷◌, refl}
use dmlpact.Base.{is_empty, any, not-eq-false, ||-eq-false, All, Option, none, some, is_some}
use dmlpact.Error.{ok}
use dmlpact.Error.Pure.{>>=-eq-ok, refuse_if-eq-ok}
use dmlpact.Model.{
  StatementKind, insert, same, same_self, StatementKind-discrete, ColumnEvidence, TableEvidence,
}
use dmlpact.Db.Policy.{is_implicit, enforce_table_policy}

-- A column whose value every INSERT writes out.
pub record IsExplicit (column : ColumnEvidence) : Type 0 where
  pub no_default : column.default_expression ≡ none
  pub no_identity : column.identity ≡ ""
  pub not_generated : column.generated ≡ ""

-- An ordinary permanent table, without hidden effects but those that were acknowledged.
pub record IsAllowed (evidence : TableEvidence) (kind : StatementKind)
    (allow_triggers allow_row_security : Bool) : Type 0 where
  pub ordinary : evidence.relation_kind ≡ "r"
  pub permanent : evidence.persistence ≡ "p"
  pub no_rules : evidence.rewrite_rules ≡ []
  pub no_inheritance : evidence.inheritance_relations ≡ []
  pub no_actions : evidence.referential_actions ≡ []
  pub triggers : allow_triggers ≡ false → evidence.user_triggers ≡ []
  pub row_security :
      allow_row_security ≡ false
      → (evidence.row_security ≡ false)
        × (evidence.force_row_security ≡ false)
        × (evidence.policies ≡ [])
  pub explicit : kind ≡ insert → All IsExplicit evidence.columns

none_of : {A : Type 0} (xs : List A) → not (is_empty xs) ≡ false → xs ≡ []
none_of [] h = refl
none_of (x ∷ xs) h = cc

is_none_of : {A : Type 0} (o : Option A) → is_some o ≡ false → o ≡ none
is_none_of none h = refl
is_none_of (some a) h = cc

columns-IsExplicit :
    (columns : List ColumnEvidence) → any is_implicit columns ≡ false → All IsExplicit columns
unfolding is_implicit
columns-IsExplicit [] h = tt
columns-IsExplicit (c ∷ columns) h =
    let (here, rest) = ||-eq-false (is_implicit c) (any is_implicit columns) h in
    let (ab, e) = ||-eq-false _ _ here in
    let (a, d) = ||-eq-false _ _ ab in
    (
      record {
        no_default = is_none_of _ a;
        no_identity = (eq_iff _ _).0 (not-eq-false _ d);
        not_generated = (eq_iff _ _).0 (not-eq-false _ e);
      },
      columns-IsExplicit columns rest,
    )

-- A guard `not flag && test` that did not refuse.
unless : (flag test : Bool) → (not flag && test) ≡ false → flag ≡ false → test ≡ false
unless true test h e = cc
unless false test h e = h

when : (flag test : Bool) → (flag && test) ≡ false → flag ≡ true → test ≡ false
when true test h e = h
when false test h e = cc

same_kind : (kind : StatementKind) → kind ≡ insert → same StatementKind-discrete kind insert ≡ true
same_kind kind e = rw (e) (same_self StatementKind-discrete insert)

-- A table that `enforce_table_policy` lets through is ordinary and permanent, without rewrite rules,
-- inheritance and referential actions, without triggers and row security that are not acknowledged,
-- and an INSERT into it has no column with a default, an identity or a generated value.
pub enforce_table_policy-IsAllowed :
    (evidence : TableEvidence) (kind : StatementKind) (allow_triggers allow_row_security : Bool)
    → enforce_table_policy evidence kind allow_triggers allow_row_security ≡ ok tt
    → IsAllowed evidence kind allow_triggers allow_row_security
unfolding enforce_table_policy
enforce_table_policy-IsAllowed evidence kind allow_triggers allow_row_security run =
    let (_, p₁, run₁) = >>=-eq-ok _ _ run in
    let (_, p₂, run₂) = >>=-eq-ok _ _ run₁ in
    let (_, p₃, run₃) = >>=-eq-ok _ _ run₂ in
    let (_, p₄, run₄) = >>=-eq-ok _ _ run₃ in
    let (_, p₅, run₅) = >>=-eq-ok _ _ run₄ in
    let (_, p₆, run₆) = >>=-eq-ok _ _ run₅ in
    let (_, p₇, run₇) = >>=-eq-ok _ _ run₆ in
    let (kind_r, kind_p) = ||-eq-false _ _ (refuse_if-eq-ok _ _ p₁) in
    let triggers = refuse_if-eq-ok _ _ p₅ in
    let row_security = refuse_if-eq-ok _ _ p₆ in
    let columns = refuse_if-eq-ok _ _ p₇ in
    record {
      ordinary = (eq_iff _ _).0 (not-eq-false _ kind_r);
      permanent = (eq_iff _ _).0 (not-eq-false _ kind_p);
      no_rules = none_of _ (refuse_if-eq-ok _ _ p₂);
      no_inheritance = none_of _ (refuse_if-eq-ok _ _ p₃);
      no_actions = none_of _ (refuse_if-eq-ok _ _ p₄);
      triggers = λ off. none_of _ (unless allow_triggers _ triggers off);
      row_security = λ off.
          let (b, d) = ||-eq-false _ _ (unless allow_row_security _ row_security off) in
          let (a, c) = ||-eq-false _ _ b in (a, c, none_of _ d);
      explicit = λ is_insert.
          columns-IsExplicit _
            (when (same StatementKind-discrete kind insert) _ columns (same_kind kind is_insert));
    }
