-- ===== src/Sql/Analyze/Shapes.antt =====
-- What the tests of src/sql.rs on the forms of UPDATE and DELETE and on their table let through,
-- field by field.
use dmlpact.Base.{
  ℕ, suc, String, Bool, true, false, not, ◌||◌, if◌then◌else◌, leb, length, arith, ◌≡◌, refl,
  Option, none, some, List, [], ◌∷◌, is_empty, is_none, is_some, &&-eq-true, ||-eq-false,
  not-eq-true, sym,
}
use dmlpact.Error.{AppError, ok, err}
use dmlpact.Error.Pure.{ok-injective}
use dmlpact.Sql.Ast.{SqlParser, Ident, NamePart, ObjectName, TableAlias, PlainTable, Update, Delete}
use dmlpact.Sql.Forms.{update_form_denied, delete_form_denied, is_plain}
use dmlpact.Sql.Analyze.{validate_object_name, row_reference}

module _ {A : Type 0} where
  pub no_item : (xs : List A) → not (is_empty xs) ≡ false → xs ≡ []
  no_item [] h = refl
  no_item (x ∷ xs) h = cc

  empty : (xs : List A) → is_empty xs ≡ true → xs ≡ []
  empty [] h = refl
  empty (x ∷ xs) h = cc

  pub absent : (o : Option A) → is_some o ≡ false → o ≡ none
  absent none h = refl
  absent (some a) h = cc

  missing : (o : Option A) → is_none o ≡ true → o ≡ none
  missing none h = refl
  missing (some a) h = cc

  some_item : (xs : List A) → is_empty xs ≡ false → (x : A) × (rest : List A) × (xs ≡ x ∷ rest)
  some_item [] h = cc
  some_item (x ∷ xs) h = (x, xs, refl)

module _ {Node : Type 0} where
  -- A table with nothing around its name but an alias, which renames no column.
  pub record IsBare (plain : PlainTable Node) : Type 0 where
    pub no_args : plain.args ≡ none
    pub no_hints : plain.with_hints ≡ []
    pub no_version : plain.version ≡ none
    pub no_ordinality : plain.with_ordinality ≡ false
    pub no_partitions : plain.partitions ≡ []
    pub no_path : plain.json_path ≡ none
    pub no_sample : plain.sample ≡ none
    pub no_index_hints : plain.index_hints ≡ []
    pub no_renamed : (alias : TableAlias Node) → plain.alias ≡ some alias → alias.columns ≡ []

  abbrev renames_none : Option (TableAlias Node) → Bool
  renames_none none = true
  renames_none (some alias) = is_empty alias.columns

  no_columns :
      (given : Option (TableAlias Node)) (alias : TableAlias Node)
      → given ≡ some alias
      → renames_none given ≡ true
      → alias.columns ≡ []
  no_columns none alias e h = cc
  no_columns (some other) alias e h = empty alias.columns cc

  pub is_plain-IsBare : (plain : PlainTable Node) → is_plain plain ≡ true → IsBare plain
  unfolding is_plain
  is_plain-IsBare plain h =
      let (h₁, columns) = &&-eq-true _ _ h in
      let (h₂, index_hints) = &&-eq-true _ _ h₁ in
      let (h₃, sample) = &&-eq-true _ _ h₂ in
      let (h₄, path) = &&-eq-true _ _ h₃ in
      let (h₅, partitions) = &&-eq-true _ _ h₄ in
      let (h₆, ordinality) = &&-eq-true _ _ h₅ in
      let (h₇, version) = &&-eq-true _ _ h₆ in
      let (args, hints) = &&-eq-true _ _ h₇ in
      record {
        no_args = missing _ args;
        no_hints = empty _ hints;
        no_version = missing _ version;
        no_ordinality = not-eq-true _ ordinality;
        no_partitions = empty _ partitions;
        no_path = missing _ path;
        no_sample = missing _ sample;
        no_index_hints = empty _ index_hints;
        no_renamed = λ alias e. no_columns plain.alias alias e columns;
      }

  -- An UPDATE that assigns something and has none of the clauses that reach further rows or tables.
  pub record IsSimpleUpdate (update : Update Node) : Type 0 where
    pub no_hints : update.optimizer_hints ≡ []
    pub no_from : update.from ≡ none
    pub no_returning : update.returning ≡ none
    pub no_output : update.output ≡ none
    pub no_or : update.or_clause ≡ none
    pub no_order : update.order_by ≡ []
    pub no_limit : update.limit ≡ none
    pub assigned : (first : Node) × (rest : List Node) × (update.assignments ≡ first ∷ rest)

  pub update_form-IsSimpleUpdate :
      (update : Update Node) → update_form_denied update ≡ false → IsSimpleUpdate update
  unfolding update_form_denied
  update_form-IsSimpleUpdate update h =
      let (h₁, assigned) = ||-eq-false _ _ h in
      let (h₂, limit) = ||-eq-false _ _ h₁ in
      let (h₃, order) = ||-eq-false _ _ h₂ in
      let (h₄, or_clause) = ||-eq-false _ _ h₃ in
      let (h₅, output) = ||-eq-false _ _ h₄ in
      let (h₆, returning) = ||-eq-false _ _ h₅ in
      let (hints, from) = ||-eq-false _ _ h₆ in
      record {
        no_hints = no_item _ hints;
        no_from = absent _ from;
        no_returning = absent _ returning;
        no_output = absent _ output;
        no_or = absent _ or_clause;
        no_order = no_item _ order;
        no_limit = absent _ limit;
        assigned = some_item _ assigned;
      }

  -- A DELETE with none of the clauses that reach further rows or tables.
  pub record IsSimpleDelete (delete : Delete Node) : Type 0 where
    pub no_hints : delete.optimizer_hints ≡ []
    pub no_tables : delete.tables ≡ []
    pub no_using : delete.using ≡ none
    pub no_returning : delete.returning ≡ none
    pub no_output : delete.output ≡ none
    pub no_order : delete.order_by ≡ []
    pub no_limit : delete.limit ≡ none

  pub delete_form-IsSimpleDelete :
      (delete : Delete Node) → delete_form_denied delete ≡ false → IsSimpleDelete delete
  unfolding delete_form_denied
  delete_form-IsSimpleDelete delete h =
      let (h₁, limit) = ||-eq-false _ _ h in
      let (h₂, order) = ||-eq-false _ _ h₁ in
      let (h₃, output) = ||-eq-false _ _ h₂ in
      let (h₄, returning) = ||-eq-false _ _ h₃ in
      let (h₅, using) = ||-eq-false _ _ h₄ in
      let (hints, tables) = ||-eq-false _ _ h₅ in
      record {
        no_hints = no_item _ hints;
        no_tables = no_item _ tables;
        no_using = absent _ using;
        no_returning = absent _ returning;
        no_output = absent _ output;
        no_order = no_item _ order;
        no_limit = absent _ limit;
      }

-- A table's name, with or without a schema.
pub data IsQualified : ObjectName → Ident → Type 0 where
  alone : (table : Ident) → IsQualified (NamePart.ident table ∷ []) table
  within :
      (schema table : Ident) → IsQualified (NamePart.ident schema ∷ NamePart.ident table ∷ []) table

too_long : (n : ℕ) → leb (suc (suc (suc n))) 2 ≡ true → ⊥
too_long n h = ground arith

passed :
    {A : Type 0} (short other : Bool) (e : AppError) (a : A) {b : A}
    → (if not short || other then err e else ok a) ≡ ok b
    → short ≡ true
passed true other e a h = refl
passed false other e a h = cc

module _ (P : SqlParser) where
  open P use {Node, ident_text, name_text}

  pub validate_object_name-IsQualified :
      (name : ObjectName) {text : String}
      → validate_object_name P name ≡ ok text
      → (table : Ident) × IsQualified name table × (text ≡ name_text name)
  unfolding validate_object_name
  validate_object_name-IsQualified [] h = cc
  validate_object_name-IsQualified (NamePart.other ∷ []) h = cc
  validate_object_name-IsQualified (NamePart.ident t ∷ []) h =
      (t, IsQualified.alone t, sym (ok-injective h))
  validate_object_name-IsQualified (NamePart.other ∷ x ∷ []) h = cc
  validate_object_name-IsQualified (NamePart.ident s ∷ NamePart.other ∷ []) h = cc
  validate_object_name-IsQualified (NamePart.ident s ∷ NamePart.ident t ∷ []) h =
      (t, IsQualified.within s t, sym (ok-injective h))
  validate_object_name-IsQualified (x ∷ y ∷ z ∷ name) h =
      absurd (too_long (length name) (&&-eq-true _ _ (passed _ _ _ _ h)).1)

  -- The name of a row: the alias, or the table without its schema.
  abbrev pub row_name : Option (TableAlias Node) → Ident → String
  row_name none table = ident_text table
  row_name (some alias) table = ident_text alias.name

  reference_of :
      (plain : PlainTable Node) (name : ObjectName) (table : Ident)
      (alias : Option (TableAlias Node)) {reference : String}
      → IsQualified name table
      → row_reference P (record plain { name = name; alias = alias }) ≡ ok reference
      → reference ≡ row_name alias table
  unfolding row_reference
  reference_of plain name table (some a) q h = sym (ok-injective h)
  reference_of plain name table none (IsQualified.alone t) h = sym (ok-injective h)
  reference_of plain name table none (IsQualified.within s t) h = sym (ok-injective h)

  pub row_reference-row_name :
      (plain : PlainTable Node) (table : Ident) {reference : String}
      → IsQualified plain.name table
      → row_reference P plain ≡ ok reference
      → reference ≡ row_name plain.alias table
  row_reference-row_name plain table q h = reference_of plain plain.name table plain.alias q h
