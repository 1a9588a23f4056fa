-- ===== src/Sql/Analyze.antt =====
-- The analysis of one parsed statement in src/sql.rs.
pub mod Rows
pub mod Exact
pub mod Inserts
pub mod RowsExact
pub mod Shapes
pub mod Targets
use dmlpact.Base.{ℕ, String, Bool, not, ◌&&◌, ◌||◌, Option, none, some}
use dmlpact.Base.{List, [], ◌∷◌, length, is_empty, any, is_none, leb, ◌==◌, if◌then◌else◌}
use dmlpact.Error.{AppResult, ok, err}
use dmlpact.Error.Pure.{◌>>=◌, ◌>>◌, refuse_if, ok_or}
use dmlpact.Model.{StatementKind}
use dmlpact.Sql.Ast.{
  ObjectName, TableObject, Values, SetExpr, Insert, PlainTable, TableFactor, TableWithJoins, Update,
  FromTable, Delete, Statement, SqlParser,
}
use dmlpact.Sql.Forms.{
  StatementDetails, policy, as_ident, last, insert_form_denied, insert_query_denied,
  values_form_denied, update_form_denied, delete_form_denied, is_plain, count_query,
  target_rows_query,
}

module _ (P : SqlParser) where
  open P use {Node, expr_text, table_text, ident_text, name_text}

  unfoldable pub validate_object_name : ObjectName → AppResult String
  unfolding as_ident
  validate_object_name name =
      if not (leb 1 (length name) && leb (length name) 2)
        || any (λ part. is_none (as_ident part)) name
      then err (
          policy "table_name_denied"
            "table names must be unqualified or schema-qualified identifiers")
      else ok (name_text name)

  -- The name by which a row of the target is referred to.
  unfoldable pub row_reference : PlainTable Node → AppResult String
  unfolding as_ident last
  row_reference table = elim table.alias [
    | some alias ↦ ok (ident_text alias.name)
    | none ↦ elim (last table.name) [
      | none ↦
          err (policy "table_name_denied" "the target table must have an identifier row reference")
      | some part ↦
          ok_or (as_ident part)
            (policy "table_name_denied" "the target table must have an identifier row reference")
          >>= λ i. ok (ident_text i)
    ]
  ]

  unfoldable pub validate_table_with_joins : TableWithJoins Node → AppResult (String × String)
  unfolding validate_object_name row_reference is_plain
  validate_table_with_joins table = do
    refuse_if (not (is_empty table.joins))
        (policy "join_denied" "joins are not supported for mutation targets")
    elim table.relation [
      | TableFactor.table plain ↦
          if is_plain plain
          then (do
            validated_name ← validate_object_name plain.name
            reference ← row_reference plain
            ok (validated_name, reference))
          else err (policy "table_factor_denied" "the mutation target must be a plain named table")
      | TableFactor.other ↦
          err (policy "table_factor_denied" "the mutation target must be a plain named table")
    ]

  unfoldable pub insert_target : TableObject → AppResult String
  unfolding validate_object_name
  insert_target (TableObject.table_name name) = validate_object_name name
  insert_target TableObject.other =
      err (policy "insert_target_denied" "the INSERT target must be a named table")

  unfoldable pub insert_values : SetExpr Node → AppResult (Values Node)
  insert_values (SetExpr.values values) = ok values
  insert_values SetExpr.other =
      err (policy "insert_select_denied" "INSERT ... SELECT is not supported; use explicit VALUES")

  -- The width of the first row, which all rows share.
  unfoldable pub rows_width : List (List Node) → AppResult ℕ
  rows_width [] = err (policy "insert_values_empty" "INSERT VALUES must not be empty")
  rows_width (row ∷ rows) = ok (length row)

  unfoldable pub analyze_insert : Insert Node → AppResult StatementDetails
  unfolding insert_form_denied insert_query_denied insert_target insert_values rows_width
      values_form_denied
  analyze_insert insert = do
    refuse_if (insert_form_denied insert) (
        policy "insert_form_denied"
          "only a plain single-table INSERT ... VALUES statement is supported")
    name ← insert_target insert.table
    source ←
        ok_or insert.source
          (policy "insert_values_required" "INSERT must contain an explicit VALUES clause")
    refuse_if (insert_query_denied source)
        (policy "insert_query_denied" "INSERT query modifiers are not supported")
    values ← insert_values source.body
    refuse_if (values_form_denied values)
        (policy "insert_values_form_denied" "INSERT requires one or more standard VALUES rows")
    width ← rows_width values.rows
    refuse_if (width == 0 || any (λ row. not (length row == width)) values.rows) (
        policy "insert_values_width_mismatch"
          "all INSERT VALUES rows must have the same non-zero width")
    refuse_if (not (is_empty insert.columns) && not (length insert.columns == width)) (
        policy "insert_column_count_mismatch" "the INSERT column count must match every VALUES row")
    ok (record {
      kind = StatementKind.insert;
      table = name;
      count_sql = none;
      target_rows_sql = none;
      inserted_rows = length values.rows;
    })

  unfoldable pub analyze_update : Update Node → AppResult StatementDetails
  unfolding update_form_denied validate_table_with_joins count_query target_rows_query
  analyze_update update = do
    refuse_if (update_form_denied update) (
        policy "update_form_denied"
          "UPDATE joins, FROM, RETURNING, ORDER BY, LIMIT, and extensions are not supported")
    selection ←
        ok_or update.selection (policy "where_required" "UPDATE requires an explicit WHERE clause")
    (name, reference) ← validate_table_with_joins update.table
    ok (record {
      kind = StatementKind.update;
      table = name;
      count_sql = some (count_query (table_text update.table) (expr_text selection));
      target_rows_sql =
          some (target_rows_query reference (table_text update.table) (expr_text selection));
      inserted_rows = 0;
    })

  unfoldable pub from_tables : FromTable Node → AppResult (List (TableWithJoins Node))
  from_tables (FromTable.with_from_keyword tables) = ok tables
  from_tables (FromTable.without_keyword _) =
      err (policy "delete_from_required" "DELETE must use the standard FROM form")

  unfoldable pub single_table : List (TableWithJoins Node) → AppResult (TableWithJoins Node)
  single_table (table ∷ []) = ok table
  single_table _ = err (policy "single_table_required" "exactly one target table is required")

  unfoldable pub analyze_delete : Delete Node → AppResult StatementDetails
  unfolding delete_form_denied from_tables single_table validate_table_with_joins count_query
      target_rows_query
  analyze_delete delete = do
    refuse_if (delete_form_denied delete) (
        policy "delete_form_denied"
          "DELETE USING, RETURNING, ORDER BY, LIMIT, and extensions are not supported")
    selection ←
        ok_or delete.selection (policy "where_required" "DELETE requires an explicit WHERE clause")
    tables ← from_tables delete.from
    table ← single_table tables
    (name, reference) ← validate_table_with_joins table
    ok (record {
      kind = StatementKind.delete;
      table = name;
      count_sql = some (count_query (table_text table) (expr_text selection));
      target_rows_sql = some (target_rows_query reference (table_text table) (expr_text selection));
      inserted_rows = 0;
    })

  unfoldable pub analyze_statement : Statement Node → AppResult StatementDetails
  unfolding analyze_insert analyze_update analyze_delete
  analyze_statement (Statement.insert insert) = analyze_insert insert
  analyze_statement (Statement.update update) = analyze_update update
  analyze_statement (Statement.delete delete) = analyze_delete delete
  analyze_statement Statement.other =
      err (policy "statement_kind_denied" "only INSERT VALUES, UPDATE, and DELETE are supported")

  unfoldable pub single_statement : List (Statement Node) → AppResult (Statement Node)
  single_statement (statement ∷ []) = ok statement
  single_statement _ =
      err (policy "statement_count_not_one" "exactly one SQL statement is required")
