-- ===== src/Sql/Analyze/Targets.antt =====
-- What an accepted UPDATE or DELETE is, in src/sql.rs: one named table and a condition, which the two
-- queries on the target rows repeat.
use dmlpact.Base.{
  ◌<>◌, String, Bool, true, false, not, ◌≡◌, refl, ap, sym, ◌∙◌, some, List, [], ◌∷◌, is_empty,
  if◌then◌else◌, subst,
}
use dmlpact.Error.{AppResult, ok, err}
use dmlpact.Error.Pure.{>>=-eq-ok, refuse_if-eq-ok, ok_or-eq-ok, ok-injective, ◌>>=◌, refuse_if}
use dmlpact.Model.{StatementKind}
use dmlpact.Sql.Ast.{
  SqlParser, Ident, Update, Delete, FromTable, TableWithJoins, TableFactor, PlainTable,
}
use dmlpact.Sql.Forms.{StatementDetails, count_query, target_rows_query, is_plain, policy}
use dmlpact.Sql.Analyze.Shapes.{
  no_item, IsBare, is_plain-IsBare, IsSimpleUpdate, update_form-IsSimpleUpdate, IsSimpleDelete,
  delete_form-IsSimpleDelete, IsQualified, validate_object_name-IsQualified, row_name,
  row_reference-row_name,
}
use dmlpact.Sql.Analyze.{
  analyze_update, analyze_delete, validate_table_with_joins, validate_object_name, row_reference,
  from_tables, single_table,
}

module _ (P : SqlParser) where
  open P use {Node, expr_text, table_text, name_text}

  -- One table, by its name alone: what it is called, and how its rows are referred to.
  pub record IsTarget (target : TableWithJoins Node) (name reference : String) : Type 0 where
    pub no_joins : target.joins ≡ []
    pub plain : PlainTable Node
    pub is_table : target.relation ≡ TableFactor.table plain
    pub bare : IsBare plain
    pub table : Ident
    pub qualified : IsQualified plain.name table
    pub named : name ≡ name_text plain.name
    pub referred : reference ≡ row_name P plain.alias table

  -- The details are about this table under this condition: one query counts its rows there, the
  -- other lists them in their order.
  pub record AreAbout (kind : StatementKind) (target : TableWithJoins Node) (condition : Node)
      (details : StatementDetails) : Type 0 where
    pub same_kind : details.kind ≡ kind
    pub no_rows : details.inserted_rows ≡ 0
    pub reference : String
    pub is_target : IsTarget target details.table reference
    pub counted :
        details.count_sql
        ≡ some (
            "SELECT COUNT(*)::bigint FROM "
            <> (table_text target <> (" WHERE " <> expr_text condition)))
    pub listed :
        details.target_rows_sql
        ≡ some (
            "SELECT pg_catalog.to_jsonb("
            <> (reference
                <> (")::text FROM "
                    <> (table_text target
                        <> (" WHERE "
                            <> (expr_text condition
                                <> (" ORDER BY pg_catalog.to_jsonb("
                                    <> (reference <> ")::text"))))))))

  abbrev checked_names : PlainTable Node → AppResult (String × String)
  checked_names plain = do
    validated_name ← validate_object_name P plain.name
    reference ← row_reference P plain
    ok (validated_name, reference)

  abbrev checked_relation : TableFactor Node → AppResult (String × String)
  checked_relation (TableFactor.table plain) =
      if is_plain plain
      then checked_names plain
      else err (policy "table_factor_denied" "the mutation target must be a plain named table")
  checked_relation TableFactor.other =
      err (policy "table_factor_denied" "the mutation target must be a plain named table")

  checked_plain :
      (plain : PlainTable Node) (b : Bool) (names : String × String)
      → (if b
          then checked_names plain
          else err (policy "table_factor_denied" "the mutation target must be a plain named table"))
        ≡ ok names
      → (b ≡ true) × (checked_names plain ≡ ok names)
  checked_plain plain true names h = (refl, h)
  checked_plain plain false names h = cc

  relation-IsTarget :
      (target : TableWithJoins Node) (relation : TableFactor Node) {name reference : String}
      → target.joins ≡ []
      → target.relation ≡ relation
      → checked_relation relation ≡ ok (name, reference)
      → IsTarget target name reference
  relation-IsTarget target (TableFactor.table plain) alone e h =
      let (no_modifiers, names) = checked_plain plain (is_plain plain) _ h in
      let (n, named, h₁) = >>=-eq-ok (validate_object_name P plain.name) _ names in
      let (r, referred, h₂) = >>=-eq-ok (row_reference P plain) _ h₁ in
      let (table, qualified, spelled) = validate_object_name-IsQualified P plain.name named in
      let same = ok-injective h₂ in
      record {
        no_joins = alone;
        plain = plain;
        is_table = e;
        bare = is_plain-IsBare plain no_modifiers;
        table = table;
        qualified = qualified;
        named = sym (ap (λ (p : String × String). p.0) same) ∙ spelled;
        referred =
            sym (ap (λ (p : String × String). p.1) same)
            ∙ row_reference-row_name P plain table qualified referred;
      }
  relation-IsTarget target TableFactor.other alone e h = cc

  valid-IsTarget :
      (target : TableWithJoins Node) {name reference : String}
      → validate_table_with_joins P target ≡ ok (name, reference)
      → IsTarget target name reference
  unfolding validate_table_with_joins
  valid-IsTarget target run =
      let (_, alone, run₁) =
        >>=-eq-ok
          (refuse_if (not (is_empty target.joins))
            (policy "join_denied" "joins are not supported for mutation targets"))
          (λ _. checked_relation target.relation) run in
      relation-IsTarget target target.relation (no_item _ (refuse_if-eq-ok _ _ alone)) refl run₁

  -- An UPDATE that `analyze_update` accepts has assignments, a condition, no clause that reaches other
  -- rows or tables, and one table by its bare name; its two queries count and list the rows of that
  -- table WHERE that condition holds.
  pub analyze_update-AreAbout :
      (update : Update Node) (details : StatementDetails)
      → analyze_update P update ≡ ok details
      → (condition : Node) × (update.selection ≡ some condition)
        × IsSimpleUpdate update
        × AreAbout StatementKind.update update.table condition details
  unfolding analyze_update count_query target_rows_query
  analyze_update-AreAbout update details run =
      let (_, form, run₁) = >>=-eq-ok _ _ run in
      let (condition, condition_given, run₂) = >>=-eq-ok _ _ run₁ in
      let ((name, reference), valid, result) =
        >>=-eq-ok (validate_table_with_joins P update.table) _ run₂ in
      let made = sym (ok-injective result) in
      (
        condition,
        ok_or-eq-ok _ _ condition_given,
        update_form-IsSimpleUpdate update (refuse_if-eq-ok _ _ form),
        record {
          same_kind = ap (λ (d : StatementDetails). d.kind) made;
          no_rows = ap (λ (d : StatementDetails). d.inserted_rows) made;
          reference = reference;
          is_target =
              subst (λ n. IsTarget update.table n reference)
                (sym (ap (λ (d : StatementDetails). d.table) made))
                (valid-IsTarget update.table valid);
          counted = ap (λ (d : StatementDetails). d.count_sql) made;
          listed = ap (λ (d : StatementDetails). d.target_rows_sql) made;
        },
      )

  only_table :
      (tables : List (TableWithJoins Node)) {table : TableWithJoins Node}
      → single_table P tables ≡ ok table
      → tables ≡ table ∷ []
  unfolding single_table
  only_table [] h = cc
  only_table (t ∷ []) h = ap (λ x. x ∷ []) (ok-injective h)
  only_table (t ∷ u ∷ tables) h = cc

  from_keyword :
      (from : FromTable Node) {tables : List (TableWithJoins Node)}
      → from_tables P from ≡ ok tables
      → from ≡ FromTable.with_from_keyword tables
  unfolding from_tables
  from_keyword (FromTable.with_from_keyword ts) h = ap FromTable.with_from_keyword (ok-injective h)
  from_keyword (FromTable.without_keyword ts) h = cc

  -- A DELETE that `analyze_delete` accepts has a condition, no clause that reaches other rows or tables
  -- and, behind FROM, exactly one table by its bare name; its two queries count and list the rows of
  -- that table WHERE that condition holds.
  pub analyze_delete-AreAbout :
      (delete : Delete Node) (details : StatementDetails)
      → analyze_delete P delete ≡ ok details
      → (condition : Node) × (delete.selection ≡ some condition)
        × IsSimpleDelete delete
        × ((table : TableWithJoins Node) × (delete.from ≡ FromTable.with_from_keyword (table ∷ []))
            × AreAbout StatementKind.delete table condition details)
  unfolding analyze_delete count_query target_rows_query
  analyze_delete-AreAbout delete details run =
      let (_, form, run₁) = >>=-eq-ok _ _ run in
      let (condition, condition_given, run₂) = >>=-eq-ok _ _ run₁ in
      let (tables, from, run₃) = >>=-eq-ok (from_tables P delete.from) _ run₂ in
      let (table, single, run₄) = >>=-eq-ok (single_table P tables) _ run₃ in
      let ((name, reference), valid, result) =
        >>=-eq-ok (validate_table_with_joins P table) _ run₄ in
      let made = sym (ok-injective result) in
      (
        condition,
        ok_or-eq-ok _ _ condition_given,
        delete_form-IsSimpleDelete delete (refuse_if-eq-ok _ _ form),
        (
          table,
          from_keyword delete.from from ∙ ap FromTable.with_from_keyword (only_table tables single),
          record {
            same_kind = ap (λ (d : StatementDetails). d.kind) made;
            no_rows = ap (λ (d : StatementDetails). d.inserted_rows) made;
            reference = reference;
            is_target =
                subst (λ n. IsTarget table n reference)
                  (sym (ap (λ (d : StatementDetails). d.table) made)) (valid-IsTarget table valid);
            counted = ap (λ (d : StatementDetails). d.count_sql) made;
            listed = ap (λ (d : StatementDetails). d.target_rows_sql) made;
          },
        ),
      )
