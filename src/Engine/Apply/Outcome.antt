-- ===== src/Engine/Apply/Outcome.antt =====
-- What a run of `apply_after_receipt` may do, without the code: the conditions under which the
-- statement is sent, and for each way to end the changes made outside, the latest first.
use dmlpact.Base.{ℕ, ◌≤◌, String, true, false, Option, none, some, ◌≡◌, ◌≢◌, ◌⊎◌, ◌∷◌}
use dmlpact.Base.Text.{Bytes}
use dmlpact.Error.{AppError, AppResult, ok, err, ErrorClass}
use dmlpact.Model.{Plan, TableEvidence, ReceiptState, ReceiptResult, ApplyResult}
use dmlpact.System.{System, Effect, Trace, Executed, affected}
use dmlpact.System.Rules.{changes}
use dmlpact.Db.Names.{canonical_table}
use dmlpact.Db.Evidence.{database_identity, table_evidence, table_schema_sha256}
use dmlpact.Db.Policy.{enforce_table_policy}
use dmlpact.Sql.Forms.{AnalyzedSql}
use dmlpact.Receipt.Journal.{ReceiptJournal}
use dmlpact.Receipt.Writing.{IsFinalLine}
use dmlpact.Engine.Target.{target_count, target_set_sha256}
use dmlpact.Engine.Apply.{lock_query}

-- The bytes are the line of the terminal event that the result was taken from.
pub record IsEnd (S : System) (journal : ReceiptJournal) (state : ReceiptState) (r : ApplyResult)
    (bytes : Bytes) : Type 0 where
  pub result : ReceiptResult
  pub same_rows : result.affected_rows ≡ r.affected_rows
  pub same_reason : result.reason_code ≡ r.reason_code
  pub line : IsFinalLine S journal.prepared state result bytes

-- The end of a receipt: the terminal event was written to the receipt's path, or the error satisfies `Q` and
-- at most a failed write was made.
abbrev pub Finished :
    System
    → ReceiptJournal
    → ReceiptState
    → Option ℕ
    → (AppError → Type 0)
    → Trace
    → AppResult ApplyResult × Trace
    → Type 0
Finished S journal state rows Q before (ok r, t) =
    (r.state ≡ state)
    × (r.affected_rows ≡ rows)
    × (r.receipt_id ≡ journal.prepared.receipt_id)
    × ((bytes : Bytes) × IsEnd S journal state r bytes
        × (changes t ≡ Effect.write_file journal.path bytes true ∷ before))
Finished S journal state rows Q before (err e, t) =
    Q e
    × ((changes t ≡ before)
        ⊎ ((bytes : Bytes) × (changes t ≡ Effect.write_file journal.path bytes false ∷ before)))

-- Any error, and the error after a commit was tried.
abbrev pub AnyError : AppError → Type 0
AnyError e = Unit

abbrev pub NeedsReconciliation : String → AppError → Type 0
NeedsReconciliation code e = (e.class ≡ ErrorClass.contract) × (e.code ≡ code)

module _ (S : System) (plan : Plan) (analyzed : AnalyzedSql) (endpoint : String) where
  -- The moments after each of the four questions to the session, the first asked at `t`.
  abbrev pub after_identity : Trace → Trace
  after_identity t = (database_identity S endpoint t).1

  abbrev pub after_evidence : Trace → Trace
  after_evidence t = (table_evidence S analyzed.requested_table (after_identity t)).1

  abbrev pub after_count : Trace → Trace
  after_count t = (target_count S analyzed (after_evidence t)).1

  abbrev pub after_checks : Trace → Trace
  after_checks t = (target_set_sha256 S analyzed plan.preconditions.target_count (after_count t)).1

  -- Under the lock, taken last before `t`, the session and the table are those of the plan.
  pub record TableMatches (t : Trace) : Type 0 where
    pub unlocked : Trace
    pub locked : t ≡ Effect.batch (lock_query plan) true ∷ unlocked
    pub same_database : (database_identity S endpoint t).0 ≡ ok plan.preconditions.database
    pub evidence : TableEvidence
    pub found : (table_evidence S analyzed.requested_table (after_identity t)).0 ≡ ok evidence
    pub same_table : canonical_table evidence ≡ plan.preconditions.canonical_table
    pub same_schema : table_schema_sha256 S evidence ≡ ok plan.preconditions.table_schema_sha256
    pub allowed :
        enforce_table_policy evidence analyzed.kind plan.allow_triggers plan.allow_row_security
        ≡ ok tt

  -- And so are the target rows, in number and in content.
  pub record IsAuthorised (t : Trace) : Type 0 where
    pub table_matches : TableMatches t
    pub same_count :
        (target_count S analyzed (after_evidence t)).0 ≡ ok plan.preconditions.target_count
    pub within_budget : plan.preconditions.target_count ≤ plan.limits.max_rows
    pub same_rows :
        (target_set_sha256 S analyzed plan.preconditions.target_count (after_count t)).0
        ≡ ok plan.preconditions.target_set_sha256

module _ (S : System) (journal : ReceiptJournal) (plan : Plan) (analyzed : AnalyzedSql) where
  -- The statement was sent at an authorised moment, with this answer.
  pub record WasSent (answer : Executed) : Type 0 where
    pub endpoint : String
    pub moment : Trace
    pub authorised : IsAuthorised S plan analyzed endpoint moment
    pub answered :
        S.execute_statement (after_checks S plan analyzed endpoint moment) analyzed.normalized
        ≡ answer

  abbrev planned : ℕ
  planned = plan.preconditions.target_count

  -- The five ways to end, from the changes `before`.
  pub data Outcome (before : Trace) (out : AppResult ApplyResult × Trace) : Type 0 where
    refused : Finished S journal ReceiptState.refused none AnyError before out → Outcome before out
    failed :
        (state_code : Option String)
        → WasSent (Executed.failed state_code)
        → Finished S journal ReceiptState.rolled_back none AnyError
            (Effect.rollback ∷ Effect.execute analyzed.normalized none ∷ before)
            out
        → Outcome before out
    mismatched :
        (rows : ℕ)
        → rows ≢ planned
        → WasSent (affected rows)
        → Finished S journal ReceiptState.rolled_back
            (some rows)
            AnyError
            (Effect.rollback ∷ Effect.execute analyzed.normalized (some rows) ∷ before)
            out
        → Outcome before out
    uncertain :
        (rows : ℕ)
        → rows ≡ planned
        → WasSent (affected rows)
        → Finished S journal ReceiptState.uncertain
            (some rows)
            (NeedsReconciliation "commit_receipt_finalization_uncertain")
            (Effect.commit false ∷ Effect.execute analyzed.normalized (some rows) ∷ before)
            out
        → Outcome before out
    committed :
        (rows : ℕ)
        → rows ≡ planned
        → WasSent (affected rows)
        → Finished S journal ReceiptState.committed
            (some rows)
            (NeedsReconciliation "committed_receipt_finalization_uncertain")
            (Effect.commit true ∷ Effect.execute analyzed.normalized (some rows) ∷ before)
            out
        → Outcome before out
