-- ===== src/Sql/Ast.antt =====
-- What src/sql.rs reads of the syntax tree of the sqlparser crate: the fields and cases that it
-- names. `Node` stands for subtrees that it never opens, and a case that it lumps together with
-- others under `_` is `other`.
use Prim.Native.Char.{Char}
use dmlpact.Base.{String, Bool, Option, List}

pub record Ident : Type 0 where
  pub value : String
  pub quote_style : Option Char

pub data Value : Type 0 where
  placeholder : String → Value
  other : Value

pub data Expr : Type 0 where
  function subquery exists in_subquery : Expr
  value : Value → Expr
  identifier : Ident → Expr
  other : Expr

-- `ObjectNamePart`, by its `as_ident`.
pub data NamePart : Type 0 where
  ident : Ident → NamePart
  other : NamePart

abbrev pub ObjectName : Type 0
ObjectName = List NamePart

pub data TableObject : Type 0 where
  table_name : ObjectName → TableObject
  other : TableObject

module _ (Node : Type 0) where
  pub record Values : Type 0 where
    pub explicit_row : Bool
    pub value_keyword : Bool
    pub rows : List (List Node)

  pub data SetExpr : Type 0 where
    values : Values → SetExpr
    other : SetExpr

  pub record Query : Type 0 where
    pub with_clause : Option Node
    pub order_by : Option Node
    pub limit_clause : Option Node
    pub fetch : Option Node
    pub locks : List Node
    pub for_clause : Option Node
    pub settings : Option Node
    pub format_clause : Option Node
    pub pipe_operators : List Node
    pub body : SetExpr

  pub record Insert : Type 0 where
    pub optimizer_hints : List Node
    pub or_clause : Option Node
    pub ignore : Bool
    pub table_alias : Option Node
    pub overwrite : Bool
    pub assignments : List Node
    pub partitioned : Option Node
    pub after_columns : List Node
    pub has_table_keyword : Bool
    pub on_clause : Option Node
    pub returning : Option Node
    pub output : Option Node
    pub replace_into : Bool
    pub priority : Option Node
    pub insert_alias : Option Node
    pub settings : Option Node
    pub format_clause : Option Node
    pub multi_table_insert_type : Option Node
    pub multi_table_into_clauses : List Node
    pub multi_table_when_clauses : List Node
    pub multi_table_else_clause : Option Node
    pub table : TableObject
    pub columns : List Node
    pub source : Option Query

  pub record TableAlias : Type 0 where
    pub name : Ident
    pub columns : List Node

  -- The fields of `TableFactor::Table`.
  pub record PlainTable : Type 0 where
    pub name : ObjectName
    pub alias : Option TableAlias
    pub args : Option Node
    pub with_hints : List Node
    pub version : Option Node
    pub with_ordinality : Bool
    pub partitions : List Node
    pub json_path : Option Node
    pub sample : Option Node
    pub index_hints : List Node

  pub data TableFactor : Type 0 where
    table : PlainTable → TableFactor
    other : TableFactor

  pub record TableWithJoins : Type 0 where
    pub relation : TableFactor
    pub joins : List Node

  -- `selection` is the condition behind WHERE.
  pub record Update : Type 0 where
    pub optimizer_hints : List Node
    pub table : TableWithJoins
    pub assignments : List Node
    pub from : Option Node
    pub selection : Option Node
    pub returning : Option Node
    pub output : Option Node
    pub or_clause : Option Node
    pub order_by : List Node
    pub limit : Option Node

  pub data FromTable : Type 0 where
    with_from_keyword without_keyword : List TableWithJoins → FromTable

  pub record Delete : Type 0 where
    pub optimizer_hints : List Node
    pub tables : List Node
    pub from : FromTable
    pub using : Option Node
    pub selection : Option Node
    pub returning : Option Node
    pub output : Option Node
    pub order_by : List Node
    pub limit : Option Node

  pub data Statement : Type 0 where
    insert : Insert → Statement
    update : Update → Statement
    delete : Delete → Statement
    other : Statement

-- The functions of the sqlparser crate that the code calls. `visit_expressions` lists the
-- expressions of a statement in the order of the crate's visitor, and the `_text` fields are the
-- crate's `Display`.
pub record SqlParser : Type 1 where
  pub Node : Type 0
  pub parse_sql : String → Option (List (Statement Node))
  pub visit_expressions : Statement Node → List Expr
  pub statement_text : Statement Node → String
  pub expr_text : Node → String
  pub table_text : TableWithJoins Node → String
  pub ident_text : Ident → String
  pub name_text : ObjectName → String
