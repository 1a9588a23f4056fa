-- ===== src/Sql/Forms.antt =====
-- The tests of src/sql.rs on single nodes of the syntax tree, its errors and its two queries.
use dmlpact.Base.{ℕ, String, ◌<>◌, Bool, true, not, ◌&&◌, ◌||◌, Option, none, some}
use dmlpact.Base.{List, [], ◌∷◌, is_empty, is_some, is_none, if◌then◌else◌}
use dmlpact.Base.Text.{eq_ignore_ascii_case}
use dmlpact.Error.{AppError, AppResult, ok, err, app_error, policy as policy_class}
use dmlpact.Model.{StatementKind}
use dmlpact.Sql.Ast.{
  Ident, Value, Expr, NamePart, Values, Query, Insert, PlainTable, Update, Delete,
}

abbrev pub max_sql_bytes : ℕ
max_sql_bytes = 1_048_576

pub record AnalyzedSql : Type 0 where
  pub normalized : String
  pub kind : StatementKind
  pub requested_table : String
  pub sql_file_sha256 : String
  pub normalized_sql_sha256 : String
  pub count_sql : Option String
  pub count_query_sha256 : Option String
  pub target_rows_sql : Option String
  pub target_query_sha256 : Option String
  pub inserted_rows : ℕ

pub record StatementDetails : Type 0 where
  pub kind : StatementKind
  pub table : String
  pub count_sql : Option String
  pub target_rows_sql : Option String
  pub inserted_rows : ℕ

abbrev pub policy : String → String → AppError
policy code message = app_error policy_class code message

-- The closure of `reject_unsafe_expressions`: why an expression is refused, if it is.
unfoldable pub expression_kind : Expr → Option String
unfolding eq_ignore_ascii_case
expression_kind Expr.function = some "function"
expression_kind Expr.subquery = some "subquery"
expression_kind Expr.exists = some "subquery"
expression_kind Expr.in_subquery = some "subquery"
expression_kind (Expr.value (Value.placeholder _)) = some "placeholder"
expression_kind (Expr.value Value.other) = none
expression_kind (Expr.identifier identifier) =
    if is_none identifier.quote_style && eq_ignore_ascii_case identifier.value "default"
    then some "default"
    else none
expression_kind Expr.other = none

-- The visitor breaks at the first expression that is refused.
unfoldable pub first_unsafe : List Expr → Option String
unfolding expression_kind
first_unsafe [] = none
first_unsafe (expression ∷ expressions) = elim (expression_kind expression) [
  | some kind ↦ some kind
  | none ↦ first_unsafe expressions
]

unfoldable pub reject_unsafe_expressions : List Expr → AppResult (Unit {0})
unfolding first_unsafe
reject_unsafe_expressions expressions = elim (first_unsafe expressions) [
  | none ↦ ok tt
  | some kind ↦ err (
      policy "dynamic_expression_denied"
        (kind <> " expressions are not supported in v0.1 safety contracts"))
]

unfoldable pub as_ident : NamePart → Option Ident
as_ident (NamePart.ident i) = some i
as_ident NamePart.other = none

-- `slice::last`.
unfoldable pub last {ℓ} : {A : Type ℓ} → List A → Option A
last [] = none
last (x ∷ []) = some x
last (x ∷ y ∷ ys) = last (y ∷ ys)

-- `insert.optimizer_hints` and the rest of the first test of `analyze_insert`.
unfoldable pub insert_form_denied : {Node : Type 0} → Insert Node → Bool
insert_form_denied insert =
    not (is_empty insert.optimizer_hints)
    || is_some insert.or_clause
    || insert.ignore
    || is_some insert.table_alias
    || insert.overwrite
    || not (is_empty insert.assignments)
    || is_some insert.partitioned
    || not (is_empty insert.after_columns)
    || insert.has_table_keyword
    || is_some insert.on_clause
    || is_some insert.returning
    || is_some insert.output
    || insert.replace_into
    || is_some insert.priority
    || is_some insert.insert_alias
    || is_some insert.settings
    || is_some insert.format_clause
    || is_some insert.multi_table_insert_type
    || not (is_empty insert.multi_table_into_clauses)
    || not (is_empty insert.multi_table_when_clauses)
    || is_some insert.multi_table_else_clause

unfoldable pub insert_query_denied : {Node : Type 0} → Query Node → Bool
insert_query_denied source =
    is_some source.with_clause
    || is_some source.order_by
    || is_some source.limit_clause
    || is_some source.fetch
    || not (is_empty source.locks)
    || is_some source.for_clause
    || is_some source.settings
    || is_some source.format_clause
    || not (is_empty source.pipe_operators)

unfoldable pub update_form_denied : {Node : Type 0} → Update Node → Bool
update_form_denied update =
    not (is_empty update.optimizer_hints)
    || is_some update.from
    || is_some update.returning
    || is_some update.output
    || is_some update.or_clause
    || not (is_empty update.order_by)
    || is_some update.limit
    || is_empty update.assignments

unfoldable pub delete_form_denied : {Node : Type 0} → Delete Node → Bool
delete_form_denied delete =
    not (is_empty delete.optimizer_hints)
    || not (is_empty delete.tables)
    || is_some delete.using
    || is_some delete.returning
    || is_some delete.output
    || not (is_empty delete.order_by)
    || is_some delete.limit

-- The guard of the `TableFactor::Table` arm.
unfoldable pub is_plain : {Node : Type 0} → PlainTable Node → Bool
is_plain table =
    is_none table.args
    && is_empty table.with_hints
    && is_none table.version
    && not table.with_ordinality
    && is_empty table.partitions
    && is_none table.json_path
    && is_none table.sample
    && is_empty table.index_hints
    && elim table.alias [ none ↦ true | some value ↦ is_empty value.columns ]

unfoldable pub values_form_denied : {Node : Type 0} → Values Node → Bool
values_form_denied values = values.explicit_row || values.value_keyword || is_empty values.rows

-- The two queries that `format!` builds for the rows of the target.
unfoldable pub count_query : String → String → String
count_query table selection = "SELECT COUNT(*)::bigint FROM " <> (table <> (" WHERE " <> selection))

unfoldable pub target_rows_query : String → String → String → String
target_rows_query reference table selection =
    "SELECT pg_catalog.to_jsonb("
    <> (reference
        <> (")::text FROM "
            <> (table
                <> (" WHERE "
                    <> (selection
                        <> (" ORDER BY pg_catalog.to_jsonb(" <> (reference <> ")::text")))))))
