-- ===== src/Sql/Analyze/Inserts.antt =====
-- What the tests of src/sql.rs on the form of an INSERT let through, field by field.
use dmlpact.Base.{false, ◌≡◌, refl, none, [], ||-eq-false}
use dmlpact.Sql.Ast.{Insert, Query}
use dmlpact.Sql.Forms.{insert_form_denied, insert_query_denied}
use dmlpact.Sql.Analyze.Shapes.{no_item, absent}

module _ {Node : Type 0} where
  -- An INSERT with nothing but its table, its columns and its source.
  pub record IsPlainInsert (insert : Insert Node) : Type 0 where
    pub no_hints : insert.optimizer_hints ≡ []
    pub no_or : insert.or_clause ≡ none
    pub no_ignore : insert.ignore ≡ false
    pub no_alias : insert.table_alias ≡ none
    pub no_overwrite : insert.overwrite ≡ false
    pub no_assignments : insert.assignments ≡ []
    pub no_partition : insert.partitioned ≡ none
    pub no_after_columns : insert.after_columns ≡ []
    pub no_keyword : insert.has_table_keyword ≡ false
    pub no_on : insert.on_clause ≡ none
    pub no_returning : insert.returning ≡ none
    pub no_output : insert.output ≡ none
    pub no_replace : insert.replace_into ≡ false
    pub no_priority : insert.priority ≡ none
    pub no_insert_alias : insert.insert_alias ≡ none
    pub no_settings : insert.settings ≡ none
    pub no_format : insert.format_clause ≡ none
    pub no_multi_table : insert.multi_table_insert_type ≡ none
    pub no_into_clauses : insert.multi_table_into_clauses ≡ []
    pub no_when_clauses : insert.multi_table_when_clauses ≡ []
    pub no_else_clause : insert.multi_table_else_clause ≡ none

  pub insert_form_denied-IsPlainInsert :
      (insert : Insert Node) → insert_form_denied insert ≡ false → IsPlainInsert insert
  unfolding insert_form_denied
  insert_form_denied-IsPlainInsert insert h =
      let (h1, t20) = ||-eq-false _ _ h in
      let (h2, t19) = ||-eq-false _ _ h1 in
      let (h3, t18) = ||-eq-false _ _ h2 in
      let (h4, t17) = ||-eq-false _ _ h3 in
      let (h5, t16) = ||-eq-false _ _ h4 in
      let (h6, t15) = ||-eq-false _ _ h5 in
      let (h7, t14) = ||-eq-false _ _ h6 in
      let (h8, t13) = ||-eq-false _ _ h7 in
      let (h9, t12) = ||-eq-false _ _ h8 in
      let (h10, t11) = ||-eq-false _ _ h9 in
      let (h11, t10) = ||-eq-false _ _ h10 in
      let (h12, t9) = ||-eq-false _ _ h11 in
      let (h13, t8) = ||-eq-false _ _ h12 in
      let (h14, t7) = ||-eq-false _ _ h13 in
      let (h15, t6) = ||-eq-false _ _ h14 in
      let (h16, t5) = ||-eq-false _ _ h15 in
      let (h17, t4) = ||-eq-false _ _ h16 in
      let (h18, t3) = ||-eq-false _ _ h17 in
      let (h19, t2) = ||-eq-false _ _ h18 in
      let (t0, t1) = ||-eq-false _ _ h19 in
      record {
        no_hints = no_item _ t0;
        no_or = absent _ t1;
        no_ignore = t2;
        no_alias = absent _ t3;
        no_overwrite = t4;
        no_assignments = no_item _ t5;
        no_partition = absent _ t6;
        no_after_columns = no_item _ t7;
        no_keyword = t8;
        no_on = absent _ t9;
        no_returning = absent _ t10;
        no_output = absent _ t11;
        no_replace = t12;
        no_priority = absent _ t13;
        no_insert_alias = absent _ t14;
        no_settings = absent _ t15;
        no_format = absent _ t16;
        no_multi_table = absent _ t17;
        no_into_clauses = no_item _ t18;
        no_when_clauses = no_item _ t19;
        no_else_clause = absent _ t20;
      }

  pub IsPlainInsert-insert_form_denied :
      (insert : Insert Node) → IsPlainInsert insert → insert_form_denied insert ≡ false
  unfolding insert_form_denied
  IsPlainInsert-insert_form_denied insert p =
      rw
        (
          p.no_hints, p.no_or, p.no_ignore, p.no_alias, p.no_overwrite, p.no_assignments,
          p.no_partition, p.no_after_columns, p.no_keyword, p.no_on, p.no_returning, p.no_output,
          p.no_replace, p.no_priority, p.no_insert_alias, p.no_settings, p.no_format,
          p.no_multi_table, p.no_into_clauses, p.no_when_clauses, p.no_else_clause,
        )
        refl

  -- A source with nothing but its body.
  pub record IsPlainQuery (source : Query Node) : Type 0 where
    pub no_with : source.with_clause ≡ none
    pub no_order : source.order_by ≡ none
    pub no_limit : source.limit_clause ≡ none
    pub no_fetch : source.fetch ≡ none
    pub no_locks : source.locks ≡ []
    pub no_for : source.for_clause ≡ none
    pub no_settings : source.settings ≡ none
    pub no_format : source.format_clause ≡ none
    pub no_pipes : source.pipe_operators ≡ []

  pub insert_query_denied-IsPlainQuery :
      (source : Query Node) → insert_query_denied source ≡ false → IsPlainQuery source
  unfolding insert_query_denied
  insert_query_denied-IsPlainQuery source h =
      let (h1, t8) = ||-eq-false _ _ h in
      let (h2, t7) = ||-eq-false _ _ h1 in
      let (h3, t6) = ||-eq-false _ _ h2 in
      let (h4, t5) = ||-eq-false _ _ h3 in
      let (h5, t4) = ||-eq-false _ _ h4 in
      let (h6, t3) = ||-eq-false _ _ h5 in
      let (h7, t2) = ||-eq-false _ _ h6 in
      let (t0, t1) = ||-eq-false _ _ h7 in
      record {
        no_with = absent _ t0;
        no_order = absent _ t1;
        no_limit = absent _ t2;
        no_fetch = absent _ t3;
        no_locks = no_item _ t4;
        no_for = absent _ t5;
        no_settings = absent _ t6;
        no_format = absent _ t7;
        no_pipes = no_item _ t8;
      }

  pub IsPlainQuery-insert_query_denied :
      (source : Query Node) → IsPlainQuery source → insert_query_denied source ≡ false
  unfolding insert_query_denied
  IsPlainQuery-insert_query_denied source p =
      rw
        (
          p.no_with, p.no_order, p.no_limit, p.no_fetch, p.no_locks, p.no_for, p.no_settings,
          p.no_format, p.no_pipes,
        )
        refl
