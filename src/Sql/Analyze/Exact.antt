-- ===== src/Sql/Analyze/Exact.antt =====
-- `analyze_update` and `analyze_delete` of src/sql.rs refuse no more than they must.
use dmlpact.Base.{
  String, sym, ℕ, Bool, true, false, ◌≡◌, ◌↔◌, refl, ap, Option, none, some, ◌∷◌, [], is_empty,
}
use dmlpact.Error.{ok}
use dmlpact.Model.{StatementKind}
use dmlpact.Sql.Ast.{
  SqlParser, Ident, ObjectName, TableAlias, PlainTable, TableWithJoins, Update, Delete, FromTable,
}
use dmlpact.Sql.Forms.{
  StatementDetails, update_form_denied, delete_form_denied, is_plain, count_query,
  target_rows_query,
}
use dmlpact.Sql.Analyze.{
  analyze_update, analyze_delete, validate_table_with_joins, validate_object_name, row_reference,
}
use dmlpact.Sql.Analyze.Shapes.{IsBare, IsSimpleUpdate, IsSimpleDelete, IsQualified, row_name}
use dmlpact.Sql.Analyze.Targets.{
  IsTarget, AreAbout, analyze_update-AreAbout, analyze_delete-AreAbout,
}

module _ {Node : Type 0} where
  abbrev renames_none : Option (TableAlias Node) → Bool
  renames_none none = true
  renames_none (some alias) = is_empty alias.columns

  renamed_none :
      (given : Option (TableAlias Node))
      → ((alias : TableAlias Node) → given ≡ some alias → alias.columns ≡ [])
      → renames_none given ≡ true
  renamed_none none h = refl
  renamed_none (some alias) h = ap is_empty (h alias refl)

  IsBare-is_plain : (plain : PlainTable Node) → IsBare plain → is_plain plain ≡ true
  unfolding is_plain
  IsBare-is_plain plain b =
      rw
        (
          b.no_args, b.no_hints, b.no_version, b.no_ordinality, b.no_partitions, b.no_path,
          b.no_sample, b.no_index_hints,
        )
        (renamed_none plain.alias b.no_renamed)

  IsSimpleUpdate-form :
      (update : Update Node) → IsSimpleUpdate update → update_form_denied update ≡ false
  unfolding update_form_denied
  IsSimpleUpdate-form update u =
      let (first, rest, assigned) = u.assigned in
      rw
        (
          u.no_hints, u.no_from, u.no_returning, u.no_output, u.no_or, u.no_order, u.no_limit,
          assigned,
        )
        refl

  IsSimpleDelete-form :
      (delete : Delete Node) → IsSimpleDelete delete → delete_form_denied delete ≡ false
  unfolding delete_form_denied
  IsSimpleDelete-form delete d =
      rw (d.no_hints, d.no_tables, d.no_using, d.no_returning, d.no_output, d.no_order, d.no_limit)
        refl

module _ (P : SqlParser) where
  open P use {Node, name_text, ident_text}

  pub IsQualified-validate_object_name :
      (name : ObjectName) (table : Ident)
      → IsQualified name table
      → validate_object_name P name ≡ ok (name_text name)
  unfolding validate_object_name
  IsQualified-validate_object_name name table (IsQualified.alone t) = refl
  IsQualified-validate_object_name name table (IsQualified.within s t) = refl

  reference_at :
      (plain : PlainTable Node) (name : ObjectName) (alias : Option (TableAlias Node))
      (table : Ident)
      → IsQualified name table
      → row_reference P (record plain { name = name; alias = alias }) ≡ ok (row_name P alias table)
  unfolding row_reference
  reference_at plain name (some alias) table q = refl
  reference_at plain name none table (IsQualified.alone t) = refl
  reference_at plain name none table (IsQualified.within s t) = refl

  IsTarget-valid :
      (target : TableWithJoins Node) {name reference : String}
      → IsTarget P target name reference
      → validate_table_with_joins P target ≡ ok (name, reference)
  unfolding validate_table_with_joins
  IsTarget-valid target i =
      let plain = i.plain in
      rw
        (
          i.no_joins,
          i.is_table,
          IsBare-is_plain plain i.bare,
          IsQualified-validate_object_name plain.name i.table i.qualified,
          reference_at plain plain.name plain.alias i.table i.qualified,
          i.named,
          i.referred,
        )
        refl

  pub details_of :
      (details : StatementDetails) {kind : StatementKind}
      {count_sql target_rows_sql : Option String} {rows : ℕ}
      → details.kind ≡ kind
      → details.count_sql ≡ count_sql
      → details.target_rows_sql ≡ target_rows_sql
      → details.inserted_rows ≡ rows
      → record {
        kind = kind;
        table = details.table;
        count_sql = count_sql;
        target_rows_sql = target_rows_sql;
        inserted_rows = rows;
      }
        ≡ details
  details_of details k c l r = rw (sym k, sym c, sym l, sym r) refl

  accepted_update :
      (update : Update Node) (details : StatementDetails) (condition : Node)
      → update.selection ≡ some condition
      → IsSimpleUpdate update
      → AreAbout P StatementKind.update update.table condition details
      → analyze_update P update ≡ ok details
  unfolding analyze_update count_query target_rows_query
  accepted_update update details condition given simple about =
      rw (IsSimpleUpdate-form update simple, given, IsTarget-valid update.table about.is_target)
        (ap ok (details_of details about.same_kind about.counted about.listed about.no_rows))

  -- `analyze_update` accepts an UPDATE and makes these details of it exactly if it has assignments, a
  -- condition, no clause that reaches other rows or tables, and one table by its bare name, and the
  -- details are its kind, the name of that table, and the queries that count and list the rows of that
  -- table WHERE that condition holds.
  pub analyze_update_iff :
      (update : Update Node) (details : StatementDetails)
      → (analyze_update P update ≡ ok details) ↔ (
          (condition : Node) × (update.selection ≡ some condition)
          × IsSimpleUpdate update
          × AreAbout P StatementKind.update update.table condition details)
  analyze_update_iff update details = (
    analyze_update-AreAbout P update details,
    λ (condition, given, simple, about).
        accepted_update update details condition given simple about,
  )

  accepted_delete :
      (delete : Delete Node) (details : StatementDetails) (condition : Node)
      (table : TableWithJoins Node)
      → delete.selection ≡ some condition
      → IsSimpleDelete delete
      → delete.from ≡ FromTable.with_from_keyword (table ∷ [])
      → AreAbout P StatementKind.delete table condition details
      → analyze_delete P delete ≡ ok details
  unfolding analyze_delete count_query target_rows_query
  accepted_delete delete details condition table given simple from about =
      rw (IsSimpleDelete-form delete simple, given, from, IsTarget-valid table about.is_target)
        (ap ok (details_of details about.same_kind about.counted about.listed about.no_rows))

  -- `analyze_delete` accepts a DELETE and makes these details of it exactly if it has a condition, no
  -- clause that reaches other rows or tables and, behind FROM, exactly one table by its bare name, and
  -- the details are its kind, the name of that table, and the queries that count and list the rows of
  -- that table WHERE that condition holds.
  pub analyze_delete_iff :
      (delete : Delete Node) (details : StatementDetails)
      → (analyze_delete P delete ≡ ok details) ↔ (
          (condition : Node) × (delete.selection ≡ some condition)
          × IsSimpleDelete delete
          × ((table : TableWithJoins Node) × (delete.from
                ≡ FromTable.with_from_keyword (table ∷ []))
              × AreAbout P StatementKind.delete table condition details))
  analyze_delete_iff delete details = (
    analyze_delete-AreAbout P delete details,
    λ (condition, given, simple, (table, from, about)).
        accepted_delete delete details condition table given simple from about,
  )
