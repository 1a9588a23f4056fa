-- ===== src/Cli/Answers.antt =====
-- What a process of src/main.rs leaves for its caller: an exit code and a document, or a panic.
use dmlpact.Base.{ℕ, String, Bool, true, false, some, ◌≡◌, ◌⊎◌, ◌∷◌, get}
use dmlpact.Base.Text.{show}
use dmlpact.Error.{AppError, AppResult, ok, err, exit_code, error_document}
use dmlpact.Model.{Document}
use dmlpact.System.{System, Effect, Trace}
use dmlpact.Cli.Brief.{contract}
use dmlpact.Cli.{Ending}

-- A document was written whole, with its line feed.
abbrev pub Printed : Document → Trace → Type 0
Printed value t =
    (before : Trace) × (t ≡ Effect.print_newline true ∷ Effect.print value true ∷ before)

-- An error was offered to standard error, and its line feed if that succeeded.
abbrev pub Reported : AppError → Trace → Type 0
Reported error t =
    (before : Trace) × ((t ≡ Effect.report (error_document error) false ∷ before)
      ⊎ ((b : Bool) × (t
            ≡ Effect.report_newline b ∷ Effect.report (error_document error) true ∷ before)))

-- The last step offered a text of the parser or of a shell to standard output.
abbrev pub Offered : Bool → Trace → Type 0
Offered written t =
    (before : Trace) × (text : String) × ((t ≡ Effect.print_text text written ∷ before)
      ⊎ (t ≡ Effect.print_completions text written ∷ before))

-- The ways a process ends.
pub data IsExplained (out : AppResult Ending × Trace) : Type 0 where
  printed :
      (code : ℕ) (value : Document)
      → out.0 ≡ ok (Ending.code code)
      → (code ≡ 0) ⊎ (code ≡ 5)
      → Printed value out.1
      → IsExplained out
  shown : out.0 ≡ ok (Ending.code 0) → Offered true out.1 → IsExplained out
  panicked : out.0 ≡ ok Ending.panicked → Offered false out.1 → IsExplained out
  reported :
      (error : AppError)
      → out.0 ≡ ok (Ending.code (exit_code error.class))
      → Reported error out.1
      → IsExplained out

module _ (S : System) where
  -- An ending is explained; an error is still to be reported.
  abbrev Delivers : AppResult Ending × Trace → Type 0
  Delivers (ok ending, t) = IsExplained (ok ending, t)
  Delivers (err e, t) = Unit

  -- Standard error gets the document and, if that succeeds, a line feed.
  abbrev ReportsAt : AppError → AppResult (Unit {0}) × Trace → Type 0
  ReportsAt error out = (t' : Trace) × (out ≡ (ok tt, t')) × Reported error t'

  -- The compact contract has an entry for the code.
  abbrev pub IsDocumented : ℕ → Type 0
  IsDocumented code = (meaning : String) × (get (show code) (contract S).exit_codes ≡ some meaning)
