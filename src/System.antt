-- ===== src/System.antt =====
-- What the program uses and does not implement: the hash, the serialiser, the clock, the files, the
-- environment and the PostgreSQL server. Each answer of the outside may depend on everything that
-- has happened before, the `Trace`, so no behaviour of the outside is ruled out.
pub mod Monad
pub mod Rules
pub mod Looking
pub mod Steps
use dmlpact.Base.{ℕ, ℤ, String, Bool, Option, List}
use dmlpact.Base.Text.{Byte, Bytes}
use dmlpact.Error.{ErrorDocument}
use dmlpact.Model.{Plan, ReceiptEvent, TableEvidence, Document}
use dmlpact.Sql.Ast.{SqlParser}

-- What the program has done so far. A step that changes something outside carries its outcome.
pub data Effect : Type 0 where
  read_clock : Effect
  read_metadata read_file read_text read_variable : String → Effect
  load_certificates : Effect
  connect : Bool → Bool → Effect
  begin : Bool → Bool → Effect
  batch : String → Bool → Effect
  query : String → Effect
  execute : String → Option ℕ → Effect
  commit : Bool → Effect
  rollback : Effect
  create_file : String → Bool → Effect
  write_file : String → Bytes → Bool → Effect
  print : Document → Bool → Effect
  print_newline : Bool → Effect
  print_text print_completions : String → Bool → Effect
  report : ErrorDocument → Bool → Effect
  report_newline : Bool → Effect

-- The latest step stands first.
abbrev pub Trace : Type 0
Trace = List Effect

pub record Metadata : Type 0 where
  pub is_file : Bool
  pub len : ℕ

pub data Host : Type 0 where
  tcp unix : String → Host

-- An address with what the code asks of it, `is_loopback` and `to_string`.
pub record IpAddr : Type 0 where
  pub is_loopback : Bool
  pub to_string : String

-- `postgres::Config`, by the getters that the code calls.
pub record Config : Type 0 where
  pub hosts : List Host
  pub hostaddrs : List IpAddr
  pub ports : List ℕ
  pub user : Option String
  pub dbname : Option String

-- The row of the identity query, a field for each of its columns.
pub record IdentityRow : Type 0 where
  pub current_database : String
  pub current_user : String
  pub search_path : String
  pub server_version_num : ℤ
  pub server_addr : Option String
  pub server_port : Option ℤ
  pub time_zone : String
  pub date_style : String
  pub interval_style : String
  pub standard_conforming_strings : String
  pub client_encoding : String
  pub lc_numeric : String
  pub lc_monetary : String
  pub lc_time : String

-- The row of the table lookup.
pub record RelationRow : Type 0 where
  pub oid : ℤ
  pub nspname : String
  pub relname : String
  pub relkind : String
  pub relpersistence : String
  pub relrowsecurity : Bool
  pub relforcerowsecurity : Bool

-- A row of the column query.
pub record ColumnRow : Type 0 where
  pub attnum : ℤ
  pub attname : String
  pub format_type : String
  pub attnotnull : Bool
  pub atthasdef : Bool
  pub default_expr : Option String
  pub attidentity : String
  pub attgenerated : String

-- The answer to a statement: the rows that it changed, or an error with its SQLSTATE, if it has one.
pub data Executed : Type 0 where
  affected : ℕ → Executed
  failed : Option String → Executed

-- `none` is a failure of the call; of an item of `target_rows`, a failure to fetch that row.
pub record System : Type 1 where
  pub parser : SqlParser
  pub tool_version : String
  -- sha2: `Sha256::digest`
  pub digest : Bytes → Bytes
  -- serde_json: the text that `to_vec` and `to_vec_pretty` give as UTF-8, and the strict readers
  pub Json : Type 0
  pub json_text : Json → Option String
  pub plan_json : Plan → Option String
  pub plan_json_pretty : Plan → Option String
  pub event_json : ReceiptEvent → Option String
  pub evidence_json : TableEvidence → Option String
  pub parse_plan : Bytes → Option Plan
  pub parse_event : String → Option ReceiptEvent
  -- the clock: milliseconds since the epoch, `none` before it
  pub now : Trace → Option ℕ
  -- files
  pub metadata : Trace → String → Option Metadata
  pub read : Trace → String → Option Bytes
  pub read_to_string : Trace → String → Option String
  pub create_new : Trace → String → Bool
  pub write_all_and_sync : Trace → String → Bytes → Bool
  -- the connection
  pub env_var : Trace → String → Option String
  pub parse_config : String → Option Config
  pub native_certs : Trace → Bool
  pub connect_to : Trace → Config → Bool → Bool
  -- the session
  pub begin_transaction : Trace → Bool → Bool
  pub batch_execute : Trace → String → Bool
  pub identity_row : Trace → Option IdentityRow
  pub relation_row : Trace → String → Option (Option RelationRow)
  pub column_rows : Trace → ℤ → Option (List ColumnRow)
  pub definition_rows : Trace → String → ℤ → Option (List (String × String))
  pub link_rows : Trace → ℤ → Option (List String)
  pub count_row : Trace → String → Option ℤ
  pub target_rows : Trace → String → Option (List (Option String))
  pub explain_row : Trace → String → Option Json
  pub execute_statement : Trace → String → Executed
  pub commit_transaction : Trace → Bool
  -- standard output and standard error
  pub write_result : Trace → Document → Bool
  pub write_newline : Trace → Bool
  pub write_text : Trace → String → Bool
  pub write_completions : Trace → String → Bool
  pub write_error : Trace → ErrorDocument → Bool
  pub write_error_newline : Trace → Bool
