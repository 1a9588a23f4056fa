-- ===== src/Db/Names.antt =====
-- Names in src/db.rs: quoted identifiers, the canonical table name, the test of an environment
-- variable's name, and the errors of the module.
pub mod Quoting
use Prim.Native.Char.{code}
use dmlpact.Base.{ℕ, String, ◌<>◌, Bool, true, false, ◌&&◌, ◌||◌, ◌==◌, if◌then◌else◌}
use dmlpact.Base.Text.{is_ascii_alphabetic, is_ascii_alphanumeric}
use dmlpact.Error.{AppError, app_error, io}
use dmlpact.Model.{TableEvidence}

-- `identifier.replace('"', "\"\"")`.
unfoldable pub double_quotes : String → String
double_quotes String.[] = ""
double_quotes (String.◌∷◌ c s) =
    let rest = double_quotes s in
    if code c == b'"' then String.◌∷◌ c (String.◌∷◌ c rest) else String.◌∷◌ c rest

unfoldable pub quote_identifier : String → String
unfolding double_quotes
quote_identifier identifier = "\"" <> (double_quotes identifier <> "\"")

unfoldable pub canonical_table : TableEvidence → String
unfolding quote_identifier
canonical_table evidence =
    quote_identifier evidence.schema <> ("." <> quote_identifier evidence.table)

all_characters : (ℕ → Bool) → String → Bool
all_characters p String.[] = true
all_characters p (String.◌∷◌ c s) = p (code c) && all_characters p s

-- The first character is a letter or `_`, and the others are letters, digits or `_`.
unfoldable pub is_valid_environment_name : String → Bool
unfolding all_characters is_ascii_alphabetic is_ascii_alphanumeric
is_valid_environment_name String.[] = false
is_valid_environment_name (String.◌∷◌ c s) =
    (code c == b'_' || is_ascii_alphabetic (code c))
    && all_characters (λ d. d == b'_' || is_ascii_alphanumeric d) s

-- `database_error`, and the function of the same body in src/engine.rs.
abbrev pub database_error : String → AppError
database_error code =
    app_error io code "the PostgreSQL operation failed; connection details were not emitted"
