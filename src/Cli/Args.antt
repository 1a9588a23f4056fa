-- ===== src/Cli/Args.antt =====
-- The command line of src/main.rs, as its parser hands it over: durations in milliseconds, which may
-- exceed 64 bits.
use dmlpact.Base.{ℕ, String, Bool}
use dmlpact.Model.{SchemaDocument}
use dmlpact.Engine.Apply.{DatabaseOptions}

pub record DatabaseArgs : Type 0 where
  pub database_env : String
  pub allow_insecure_localhost : Bool

-- `DatabaseOptions::from`.
unfoldable pub database_options : DatabaseArgs → DatabaseOptions
database_options args = record {
  environment_name = args.database_env;
  allow_insecure_localhost = args.allow_insecure_localhost;
}

pub record PlanArgs : Type 0 where
  pub sql : String
  pub out : String
  pub max_rows : ℕ
  pub statement_timeout : ℕ
  pub lock_timeout : ℕ
  pub valid_for : ℕ
  pub allow_triggers : Bool
  pub allow_row_security : Bool
  pub database : DatabaseArgs

pub record ApplyArgs : Type 0 where
  pub sql : String
  pub plan : String
  pub receipt : String
  pub database : DatabaseArgs

pub data ReceiptCommand : Type 0 where
  verify : String → ReceiptCommand

-- A shell is its name.
pub data Command : Type 0 where
  lint : String → Command
  inspect : String → DatabaseArgs → Command
  plan : PlanArgs → Command
  apply : ApplyArgs → Command
  receipt : ReceiptCommand → Command
  schema : SchemaDocument → Command
  capabilities contract : Command
  completions : String → Command

-- What `Cli::try_parse` answers: a command, a text on help or version, or an error.
pub data Parsed : Type 0 where
  command : Command → Parsed
  display : String → Parsed
  invalid : Parsed
