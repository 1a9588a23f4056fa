-- ===== src/Sql/Analyze/Rows.antt =====
-- What an accepted INSERT is, in src/sql.rs.
use dmlpact.Base.{
  ℕ, String, none, ◌∙◌, ◌≤◌, ◌≡◌, refl, List, [], ◌∷◌, length, is_empty, any, All, not, ◌==◌, ◌&&◌,
  some,
}
use dmlpact.Base.{false, ||-eq-false, not-eq-false, ==_iff, sym, ap, arith, ◌⊎◌, inl, inr}
use dmlpact.Error.{ok}
use dmlpact.Error.Pure.{>>=-eq-ok, refuse_if-eq-ok, ok_or-eq-ok, ok-injective}
use dmlpact.Model.{StatementKind}
use dmlpact.Sql.Ast.{SqlParser, Ident, ObjectName, TableObject, Insert, Values, Query, SetExpr}
use dmlpact.Sql.Forms.{StatementDetails, values_form_denied}
use dmlpact.Sql.Analyze.Shapes.{IsQualified, validate_object_name-IsQualified}
use dmlpact.Sql.Analyze.Inserts.{
  IsPlainInsert, insert_form_denied-IsPlainInsert, IsPlainQuery, insert_query_denied-IsPlainQuery,
}
use dmlpact.Sql.Analyze.{
  validate_object_name, analyze_insert, insert_values, insert_target, rows_width,
}

same_widths :
    {Node : Type 0} (width : ℕ) (rows : List (List Node))
    → any (λ row. not (length row == width)) rows ≡ false
    → All (λ row. length row ≡ width) rows
same_widths width [] h = tt
same_widths width (row ∷ rows) h =
    let (here, rest) = ||-eq-false _ _ h in
    ((==_iff _ _).0 (not-eq-false _ here), same_widths width rows rest)

-- An INSERT of rows into one table, as it reaches the details: at least one row, all as wide as each
-- other, with a value, and as wide as the list of columns, if there is one.
pub record AreRows (P : SqlParser) (insert : Insert P.Node) (details : StatementDetails)
    : Type 0 where
  pub plain_form : IsPlainInsert insert
  pub name : ObjectName
  pub to_table : insert.table ≡ TableObject.table_name name
  pub table : Ident
  pub qualified : IsQualified name table
  pub named : details.table ≡ P.name_text name
  pub source : Query P.Node
  pub has_source : insert.source ≡ some source
  pub simple_query : IsPlainQuery source
  pub values : Values P.Node
  pub has_values : source.body ≡ SetExpr.values values
  pub not_row : values.explicit_row ≡ false
  pub not_value : values.value_keyword ≡ false
  pub is_insert : details.kind ≡ StatementKind.insert
  pub uncounted : details.count_sql ≡ none
  pub unlisted : details.target_rows_sql ≡ none
  pub counted : details.inserted_rows ≡ length values.rows
  pub some_row : 1 ≤ length values.rows
  pub width : ℕ
  pub some_value : 1 ≤ width
  pub same_width : All (λ row. length row ≡ width) values.rows
  pub columns_fit : (insert.columns ≡ []) ⊎ (length insert.columns ≡ width)

target_of :
    (P : SqlParser) (target : TableObject) {text : String}
    → insert_target P target ≡ ok text
    → (name : ObjectName) × (target ≡ TableObject.table_name name)
      × (validate_object_name P name ≡ ok text)
unfolding insert_target
target_of P (TableObject.table_name name) h = (name, refl, h)
target_of P TableObject.other h = cc

values_of :
    (P : SqlParser) (body : SetExpr P.Node) {values : Values P.Node}
    → insert_values P body ≡ ok values
    → body ≡ SetExpr.values values
unfolding insert_values
values_of P (SetExpr.values v) h = ground arith
values_of P SetExpr.other h = cc

some_rows : {Node : Type 0} (rows : List (List Node)) → is_empty rows ≡ false → 1 ≤ length rows
some_rows [] h = cc
some_rows (row ∷ rows) h = omega arith

some_width : (width : ℕ) → (width == 0) ≡ false → 1 ≤ width
some_width width h = ground arith

fit :
    {Node : Type 0} (columns : List Node) (width : ℕ)
    → (not (is_empty columns) && not (length columns == width)) ≡ false
    → (columns ≡ []) ⊎ (length columns ≡ width)
fit [] width h = inl refl
fit (c ∷ columns) width h = inr ((==_iff _ _).0 (not-eq-false _ h))

-- An INSERT that `analyze_insert` accepts gives explicit rows for one table, which it counts.
pub analyze_insert-AreRows :
    (P : SqlParser) (insert : Insert P.Node) (details : StatementDetails)
    → analyze_insert P insert ≡ ok details
    → AreRows P insert details
unfolding analyze_insert values_form_denied
analyze_insert-AreRows P insert details run =
    let (_, plain, run₁) = >>=-eq-ok _ _ run in
    let (text, target, run₂) = >>=-eq-ok (insert_target P insert.table) _ run₁ in
    let (source, given, run₃) = >>=-eq-ok _ _ run₂ in
    let (_, simple, run₄) = >>=-eq-ok _ _ run₃ in
    let (values, body, run₅) = >>=-eq-ok _ _ run₄ in
    let (_, form, run₆) = >>=-eq-ok _ _ run₅ in
    let (width, first, run₇) = >>=-eq-ok (rows_width P values.rows) _ run₆ in
    let (_, widths, run₈) = >>=-eq-ok _ _ run₇ in
    let (_, columns, result) = >>=-eq-ok _ _ run₈ in
    let (name, to_table, valid) = target_of P insert.table target in
    let (table, qualified, spelled) = validate_object_name-IsQualified P name valid in
    let (keywords, rows) = ||-eq-false _ _ (refuse_if-eq-ok _ _ form) in
    let (not_row, not_value) = ||-eq-false _ _ keywords in
    let (nonzero, equal) = ||-eq-false _ _ (refuse_if-eq-ok _ _ widths) in
    let made = sym (ok-injective result) in
    record {
      plain_form = insert_form_denied-IsPlainInsert insert (refuse_if-eq-ok _ _ plain);
      name = name;
      to_table = to_table;
      table = table;
      qualified = qualified;
      named = ap (λ (d : StatementDetails). d.table) made ∙ spelled;
      source = source;
      has_source = ok_or-eq-ok _ _ given;
      simple_query = insert_query_denied-IsPlainQuery source (refuse_if-eq-ok _ _ simple);
      values = values;
      has_values = values_of P _ body;
      not_row = not_row;
      not_value = not_value;
      is_insert = ap (λ (d : StatementDetails). d.kind) made;
      uncounted = ap (λ (d : StatementDetails). d.count_sql) made;
      unlisted = ap (λ (d : StatementDetails). d.target_rows_sql) made;
      counted = ap (λ (d : StatementDetails). d.inserted_rows) made;
      some_row = some_rows _ rows;
      width = width;
      some_value = some_width _ nonzero;
      same_width = same_widths width values.rows equal;
      columns_fit = fit _ _ (refuse_if-eq-ok _ _ columns);
    }
