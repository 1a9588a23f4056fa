-- ===== src/Sql/Analyze/RowsExact.antt =====
-- `analyze_insert` of src/sql.rs refuses no more than it must.
use dmlpact.Base.{
  List, length, any, All, ◌==◌, ==_iff, ◌&&◌, not, ◌≤◌, ◌⊎◌, inl, inr, arith, sym, ℕ, false, ◌≡◌,
  ◌↔◌, refl, ap, ◌∷◌, [], is_empty,
}
use dmlpact.Error.{ok}
use dmlpact.Sql.Ast.{Insert, SqlParser}
use dmlpact.Sql.Forms.{StatementDetails, values_form_denied}
use dmlpact.Sql.Analyze.{rows_width, insert_target, insert_values, analyze_insert}
use dmlpact.Sql.Analyze.Inserts.{IsPlainInsert-insert_form_denied, IsPlainQuery-insert_query_denied}
use dmlpact.Sql.Analyze.Rows.{AreRows, analyze_insert-AreRows}
use dmlpact.Sql.Analyze.Exact.{IsQualified-validate_object_name, details_of}

module _ (P : SqlParser) where
  open P use {Node}

  width_of :
      (rows : List (List Node)) (width : ℕ)
      → 1 ≤ length rows
      → All (λ row. length row ≡ width) rows
      → rows_width P rows ≡ ok width
  unfolding rows_width
  width_of [] width some_row same = absurd (omega arith)
  width_of (row ∷ rows) width some_row (here, rest) = ap ok here

  widths_agree :
      (width : ℕ) (rows : List (List Node))
      → All (λ row. length row ≡ width) rows
      → any (λ row. not (length row == width)) rows ≡ false
  widths_agree width [] same = refl
  widths_agree width (row ∷ rows) (here, rest) =
      rw ((==_iff (length row) width).1 here, widths_agree width rows rest) refl

  columns_agree :
      (columns : List Node) (width : ℕ)
      → (columns ≡ []) ⊎ (length columns ≡ width)
      → (not (is_empty columns) && not (length columns == width)) ≡ false
  columns_agree columns width (inl e) = rw e refl
  columns_agree [] width (inr e) = refl
  columns_agree (c ∷ columns) width (inr e) = rw ((==_iff (length (c ∷ columns)) width).1 e) refl

  not_empty : (rows : List (List Node)) → 1 ≤ length rows → is_empty rows ≡ false
  not_empty [] h = absurd (omega arith)
  not_empty (row ∷ rows) h = refl

  not_zero : (width : ℕ) → 1 ≤ width → (width == 0) ≡ false
  not_zero width h = ground arith

  accepted_insert :
      (insert : Insert Node) (details : StatementDetails)
      → AreRows P insert details
      → analyze_insert P insert ≡ ok details
  unfolding analyze_insert insert_target insert_values values_form_denied
  accepted_insert insert details a =
      rw
        (
          IsPlainInsert-insert_form_denied insert a.plain_form,
          a.to_table,
          IsQualified-validate_object_name P a.name a.table a.qualified,
          a.has_source,
          IsPlainQuery-insert_query_denied a.source a.simple_query,
          a.has_values,
          a.not_row,
          a.not_value,
          not_empty a.values.rows a.some_row,
          width_of a.values.rows a.width a.some_row a.same_width,
          not_zero a.width a.some_value,
          widths_agree a.width a.values.rows a.same_width,
          columns_agree insert.columns a.width a.columns_fit,
          sym a.named,
        )
        (ap ok (details_of P details a.is_insert a.uncounted a.unlisted a.counted))

  -- `analyze_insert` accepts an INSERT and makes these details of it exactly if it has nothing but one
  -- named table, its columns and plain VALUES rows, at least one, all of one width that is not zero and
  -- is the number of columns, if columns are given, and the details are its kind, the name of that
  -- table and the number of the rows.
  pub analyze_insert_iff :
      (insert : Insert Node) (details : StatementDetails)
      → (analyze_insert P insert ≡ ok details) ↔ AreRows P insert details
  analyze_insert_iff insert details =
      (analyze_insert-AreRows P insert details, accepted_insert insert details)
