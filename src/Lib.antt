-- ===== src/Lib.antt =====
-- dmlpact is a command-line program that runs one reviewed INSERT, UPDATE or DELETE against
-- PostgreSQL. It analyses an SQL file, records a sealed plan with the preconditions it observed, and
-- later applies exactly that statement, with every precondition checked again under a table lock,
-- around a receipt of two chained events. This library models the program and proves what its parts
-- promise.
--
-- How the parts interact: the engine (src/engine.rs) reads and analyses the SQL file (src/sql.rs),
-- asks the session for its identity and for the catalog's evidence on the table (src/db.rs), and
-- writes plans and receipts (src/receipt.rs). All of them hash with src/integrity.rs, speak in the
-- documents of src/model.rs, and fail with the errors of src/error.rs.
--
-- The files:
--   Base       names and lemmas that all modules share; Base/Text has the bytes, lines and numerals of
--              texts (Utf8 and Lines its laws), Base/Tests the Boolean tests, Base/Lists native lengths,
--              Base/Maps ordered maps, Base/Int integers
--   Error      src/error.rs: ErrorClass, AppError, AppResult; Error/Pure is the `?` of pure functions,
--              Error/Failing the rules for the errors it ends with
--   Model      src/model.rs: the structs and enums, and their `==`
--   System     what lies outside: the hash, the serialiser, the parser, the clock, the files and the
--              server, as one record of functions; System/Monad is the `?` of functions that touch the
--              outside, System/Rules, Looking and Steps its proof rules
--   Integrity  src/integrity.rs: sha256_bytes, sha256_json, unix_ms; Hex and Collision are about what
--              a hash tells
--   Sql        src/sql.rs: Ast is the part of the syntax tree that the code reads, Forms the tests on
--              single nodes, Analyze the three statement forms, Document analyze_sql, File
--              read_and_analyze; below Analyze, Shapes and Inserts open the tests field by field,
--              Targets and Rows read an accepted statement, Exact and RowsExact go the other way
--   Db         src/db.rs: Names, Connect, Queries (the SQL of the catalog queries), Evidence, Policy;
--              Quiet shows that asking changes nothing
--   Receipt    src/receipt.rs: Version, Seal, PlanFile, Journal, Check, Verify; the lemmas on what they
--              write are in Writing, Opening, PlanWriting and Sealing, those on what is read again in
--              PlanReading and Verify/Reread
--   Engine     src/engine.rs: Limits, Target, Binding, Finish, Apply, Planning, Reports; the proofs on
--              apply_plan are below Apply, those on create_plan below Planning, and Unchanged
--              and Carried join the two
--   Cli        src/main.rs: main, run and emit_json; Cli/Args is the parsed command line, Cli/Brief the
--              capabilities and the contract; Cli/Exit is about the exit code of `apply`, Cli/Answers
--              about what every process leaves, Cli/Looking about the commands that change nothing
--   Tests      runs of the whole program on a small outside, and the theorems at concrete inputs
--
-- How the code is modelled: a function that touches nothing returns an AppResult. A function that
-- touches the outside takes the trace of everything that was done before, the latest first, and
-- returns its result with the longer trace; every answer from outside may depend on that trace, so no
-- behaviour of the disk, the clock or the server is ruled out. A step that can leave something behind
-- (a statement, a commit, a rollback, a file) carries its outcome in the trace, and `changes` keeps
-- those steps. A file that was written and synced says so; a write or a sync that failed may have left
-- any part of the bytes. A process ends with an exit code or with a panic, where `print!` or the
-- generator of completions cannot write. `apply_after_receipt` is cut at its stages: apply_connected,
-- apply_locked, apply_identified, apply_matched, apply_statement, apply_executed and apply_affected.
--
-- Bounds: numbers are naturals; additions that the code saturates or checks on 64 bits do so here
-- (saturating_add, expiry, unix_ms). A length in memory is taken to fit 64 bits, so the conversions
-- that the code guards for that are the identity. The only fuel is that of decimal numerals, one more
-- than the number, which has no more digits than that.
--
-- Not modelled: the parsing of arguments, of which `main` gets the answer; the text of what is printed,
-- of which the trace holds the document; the crates below the code (clap with clap_complete, serde, schemars,
-- sqlparser, postgres, sha2), whose functions are the fields of System; and the rollback that PostgreSQL does when
-- a transaction is dropped, which the trace does not hold.
pub mod Base
pub mod Error
pub mod Model
pub mod System
pub mod Integrity
pub mod Sql
pub mod Db
pub mod Receipt
pub mod Engine
pub mod Cli
mod Tests
