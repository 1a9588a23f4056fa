-- ===== src/Db/Policy/Exact.antt =====
-- `enforce_table_policy` of src/db.rs refuses no more than it must.
use dmlpact.Base.{
  Bool, true, false, not, ◌&&◌, ◌||◌, ◌≡◌, ◌↔◌, refl, ap, List, [], ◌∷◌, is_empty, any, All,
}
use dmlpact.Error.{AppError, AppResult, ok}
use dmlpact.Error.Pure.{◌>>◌, refuse_if}
use dmlpact.Model.{
  StatementKind, insert, same, same-eq, StatementKind-discrete, ColumnEvidence, TableEvidence,
}
use dmlpact.Db.Policy.{is_implicit, enforce_table_policy}
use dmlpact.Db.Policy.Guards.{IsExplicit, IsAllowed, enforce_table_policy-IsAllowed}

-- A guard that does not refuse.
passes :
    (b : Bool) {r : AppResult (Unit {0})} (e : AppError)
    → b ≡ false
    → r ≡ ok tt
    → (refuse_if b e >> r) ≡ ok tt
passes b e open_door rest = rw open_door rest

explicit-any :
    (columns : List ColumnEvidence) → All IsExplicit columns → any is_implicit columns ≡ false
unfolding is_implicit
explicit-any [] all = refl
explicit-any (c ∷ columns) (explicit, all) =
    rw (explicit.no_default, explicit.no_identity, explicit.not_generated)
      (explicit-any columns all)

unless_off : (flag test : Bool) → (flag ≡ false → test ≡ false) → (not flag && test) ≡ false
unless_off true test h = refl
unless_off false test h = h refl

when_on : (flag test : Bool) → (flag ≡ true → test ≡ false) → (flag && test) ≡ false
when_on true test h = h refl
when_on false test h = refl

empty_off : {A : Type 0} (xs : List A) → xs ≡ [] → not (is_empty xs) ≡ false
empty_off xs e = ap (λ l. not (is_empty l)) e

none_of_three : (a b c : Bool) → a ≡ false → b ≡ false → c ≡ false → (a || b || c) ≡ false
none_of_three a b c x y z = rw (x, y, z) refl

module _ (evidence : TableEvidence) (kind : StatementKind)
    (allow_triggers allow_row_security : Bool) where
  allowed_accepted :
      IsAllowed evidence kind allow_triggers allow_row_security
      → enforce_table_policy evidence kind allow_triggers allow_row_security ≡ ok tt
  unfolding enforce_table_policy
  allowed_accepted a = passes _ _ (rw (a.ordinary, a.permanent) refl) (
      passes _ _ (empty_off _ a.no_rules) (
        passes _ _ (empty_off _ a.no_inheritance) (
          passes _ _ (empty_off _ a.no_actions) (
            passes _ _ (unless_off allow_triggers _ (λ off. empty_off _ (a.triggers off))) (
              passes _ _
                (unless_off allow_row_security _ (λ off.
                  let (x, y, z) = a.row_security off in none_of_three _ _ _ x y (empty_off _ z)))
                (passes _ _
                  (when_on (same StatementKind-discrete kind insert) _ (λ is_insert.
                    explicit-any _
                      (a.explicit (same-eq StatementKind-discrete kind insert is_insert))))
                  refl))))))

  -- `enforce_table_policy` lets a table through exactly when it is ordinary and permanent, without
  -- rewrite rules, inheritance and referential actions, without triggers and row security that are
  -- not acknowledged, and, for an INSERT, without columns that have a default, an identity or a
  -- generated value.
  pub enforce_table_policy_iff :
      (enforce_table_policy evidence kind allow_triggers allow_row_security ≡ ok tt)
      ↔ IsAllowed evidence kind allow_triggers allow_row_security
  enforce_table_policy_iff = (
    enforce_table_policy-IsAllowed evidence kind allow_triggers allow_row_security,
    allowed_accepted,
  )
