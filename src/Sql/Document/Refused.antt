-- ===== src/Sql/Document/Refused.antt =====
-- The errors of src/sql.rs: a document that is not accepted is refused by the policy.
use dmlpact.Base.{
  String, ◌<>◌, true, false, ltb, len, ◌<◌, ◌≡◌, ◌⊎◌, inl, inr, ltb→lt, Bool-cases, refl, ap, sym,
  ◌∙◌, List, [], ◌∷◌, Option, none, some,
}
use dmlpact.Error.{AppError, ok, err, app_error, exit_code, usage, policy}
use dmlpact.Error.Pure.{◌>>=◌, ok_or, err-injective}
use dmlpact.Error.Failing.{
  FailsWith, failing_rules, ok-FailsWith, err-FailsWith, passed-FailsWith, FailsWith-class,
}
use dmlpact.System.{System}
use dmlpact.Sql.Ast.{
  ObjectName, PlainTable, TableFactor, TableWithJoins, TableObject, SetExpr, Insert, Update, Delete,
  FromTable, Statement, SqlParser, Expr, NamePart,
}
use dmlpact.Sql.Forms.{
  policy as denied, reject_unsafe_expressions, first_unsafe, max_sql_bytes, last, as_ident,
}
use dmlpact.Sql.Analyze.{
  validate_object_name, row_reference, validate_table_with_joins, insert_target, insert_values,
  rows_width, analyze_insert, analyze_update, from_tables, single_table, analyze_delete,
  analyze_statement, single_statement,
}
use dmlpact.Sql.Document.{analyze_sql}

module _ (P : SqlParser) where
  open P use {Node, ident_text}

  name-FailsWith : (name : ObjectName) → FailsWith policy (validate_object_name P name)
  unfolding validate_object_name
  name-FailsWith name = search failing_rules

  part-FailsWith :
      (o : Option NamePart)
      → FailsWith {A = String} policy (elim o [
        | none ↦
            err
              (denied "table_name_denied" "the target table must have an identifier row reference")
        | some part ↦
            ok_or
              (as_ident part)
              (denied "table_name_denied" "the target table must have an identifier row reference")
            >>= λ i. ok (ident_text i)
      ])
  part-FailsWith none = err-FailsWith _ _
  part-FailsWith (some part) = search failing_rules

  reference-FailsWith : (table : PlainTable Node) → FailsWith policy (row_reference P table)
  unfolding row_reference
  reference-FailsWith table =
      elim table.alias as (λ o. FailsWith policy (row_reference P (record table { alias = o }))) [
        | some alias ↦ ok-FailsWith (ident_text alias.name)
        | none ↦ part-FailsWith (last table.name)
      ]

  table-FailsWith :
      (table : TableWithJoins Node) → FailsWith policy (validate_table_with_joins P table)
  unfolding validate_table_with_joins
  table-FailsWith table =
      elim table.relation
        as (λ f. FailsWith policy (validate_table_with_joins P (record table { relation = f }))) [
          | TableFactor.table plain ↦
              search (failing_rules, name-FailsWith, reference-FailsWith) depth 12
          | TableFactor.other ↦ search failing_rules
        ]

  target-FailsWith : (target : TableObject) → FailsWith policy (insert_target P target)
  unfolding insert_target
  target-FailsWith (TableObject.table_name name) = name-FailsWith name
  target-FailsWith TableObject.other = err-FailsWith _ _

  values-FailsWith : (body : SetExpr Node) → FailsWith policy (insert_values P body)
  unfolding insert_values
  values-FailsWith (SetExpr.values values) = ok-FailsWith values
  values-FailsWith SetExpr.other = err-FailsWith _ _

  width-FailsWith : (rows : List (List Node)) → FailsWith policy (rows_width P rows)
  unfolding rows_width
  width-FailsWith [] = err-FailsWith _ _
  width-FailsWith (row ∷ rows) = ok-FailsWith _

  insert-FailsWith : (insert : Insert Node) → FailsWith policy (analyze_insert P insert)
  unfolding analyze_insert
  insert-FailsWith insert =
      search (failing_rules, target-FailsWith, values-FailsWith, width-FailsWith) depth 24

  update-FailsWith : (update : Update Node) → FailsWith policy (analyze_update P update)
  unfolding analyze_update
  update-FailsWith update = search (failing_rules, table-FailsWith) depth 12

  from-FailsWith : (from : FromTable Node) → FailsWith policy (from_tables P from)
  unfolding from_tables
  from-FailsWith (FromTable.with_from_keyword tables) = ok-FailsWith tables
  from-FailsWith (FromTable.without_keyword tables) = err-FailsWith _ _

  single-FailsWith :
      (tables : List (TableWithJoins Node)) → FailsWith policy (single_table P tables)
  unfolding single_table
  single-FailsWith [] = err-FailsWith _ _
  single-FailsWith (table ∷ []) = ok-FailsWith table
  single-FailsWith (table ∷ second ∷ tables) = err-FailsWith _ _

  delete-FailsWith : (delete : Delete Node) → FailsWith policy (analyze_delete P delete)
  unfolding analyze_delete
  delete-FailsWith delete =
      search (failing_rules, from-FailsWith, single-FailsWith, table-FailsWith) depth 16

  statement-FailsWith :
      (statement : Statement Node) → FailsWith policy (analyze_statement P statement)
  unfolding analyze_statement
  statement-FailsWith (Statement.insert insert) = insert-FailsWith insert
  statement-FailsWith (Statement.update update) = update-FailsWith update
  statement-FailsWith (Statement.delete delete) = delete-FailsWith delete
  statement-FailsWith Statement.other = err-FailsWith _ _

  one-FailsWith :
      (statements : List (Statement Node)) → FailsWith policy (single_statement P statements)
  unfolding single_statement
  one-FailsWith [] = err-FailsWith _ _
  one-FailsWith (statement ∷ []) = ok-FailsWith statement
  one-FailsWith (statement ∷ second ∷ statements) = err-FailsWith _ _

unsafe-FailsWith :
    (found : Option String)
    → FailsWith {A = Unit {0}} policy (elim found [
      | none ↦ ok tt
      | some kind ↦ err (
          denied "dynamic_expression_denied"
            (kind <> " expressions are not supported in v0.1 safety contracts"))
    ])
unsafe-FailsWith none = ok-FailsWith tt
unsafe-FailsWith (some kind) = err-FailsWith _ _

expressions-FailsWith :
    (expressions : List Expr) → FailsWith policy (reject_unsafe_expressions expressions)
unfolding reject_unsafe_expressions
expressions-FailsWith expressions = unsafe-FailsWith (first_unsafe expressions)

module _ (S : System) where
  open S use {parser}

  small-FailsWith :
      (raw : String) → ltb max_sql_bytes (len raw) ≡ false → FailsWith policy (analyze_sql S raw)
  unfolding analyze_sql
  small-FailsWith raw small =
      passed-FailsWith _ _ _ small
        (search (failing_rules, one-FailsWith, expressions-FailsWith, statement-FailsWith) depth 16)

  abbrev too_large : AppError
  too_large = app_error usage "sql_file_too_large" "the SQL file exceeds the 1 MiB contract limit"

  large : (raw : String) → ltb max_sql_bytes (len raw) ≡ true → analyze_sql S raw ≡ err too_large
  unfolding analyze_sql
  large raw is_large = rw is_large refl

  -- An SQL text that `analyze_sql` does not accept is refused by the policy, with exit code 3, or it
  -- has more than 1 MiB and the refusal is one of usage, with exit code 2.
  pub analyze_sql-refusal :
      (raw : String) (e : AppError)
      → analyze_sql S raw ≡ err e
      → (exit_code e.class ≡ 3)
        ⊎ ((max_sql_bytes < len raw) × (e.code ≡ "sql_file_too_large") × (exit_code e.class ≡ 2))
  unfolding exit_code
  analyze_sql-refusal raw e run = elim (Bool-cases (ltb max_sql_bytes (len raw))) [
    | inl is_large ↦
        let same = err-injective (sym (large raw is_large) ∙ run) in
        inr (
          ltb→lt _ _ is_large,
          ap (λ (x : AppError). x.code) (sym same),
          ap (λ (x : AppError). exit_code x.class) (sym same),
        )
    | inr small ↦
        inl (ap exit_code (FailsWith-class (analyze_sql S raw) e (small-FailsWith raw small) run))
  ]
