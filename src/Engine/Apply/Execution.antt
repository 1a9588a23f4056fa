-- ===== src/Engine/Apply/Execution.antt =====
-- The last stage of `apply_after_receipt`, the statement and the end of its transaction, ends in one
-- of the ways of `Outcome`.
use dmlpact.Base.{
  ℕ, String, true, false, Option, none, some, ◌≡◌, refl, sym, ap, ◌∙◌, subst, ==_iff,
}
use dmlpact.Base.{◌∷◌, not-eq-false, not-eq-true, ==-eq-false}
use dmlpact.Error.{AppResult, ok, err}
use dmlpact.Model.{Plan, DatabaseIdentity, ReceiptState, ReceiptResult, ApplyResult}
use dmlpact.System.{System, Effect, Trace, Executed, affected, failed}
use dmlpact.System.Monad.{M, perform, ◌>>=◌}
use dmlpact.System.Rules.{
  changes, Reaches, bind_rule, match_rule, branch_rule, attempt-eq-ok, attempt-eq-err,
}
use dmlpact.Sql.Forms.{AnalyzedSql}
use dmlpact.Receipt.Journal.{ReceiptJournal}
use dmlpact.Engine.Finish.{finalizer, receipt_result, finish, finish_refused}
use dmlpact.Engine.Apply.{
  executed_rows, run_statement, roll_back, apply_affected, apply_executed, apply_statement,
}
use dmlpact.Engine.Apply.Outcome.{Finished, AnyError, IsAuthorised, WasSent, Outcome, after_checks}
use dmlpact.Engine.Apply.Ending.{
  finish-Finished, finish_committed-Finished, finish_uncertain-Finished,
}

module _ (S : System) (journal : ReceiptJournal) (plan : Plan) (analyzed : AnalyzedSql) where
  abbrev pub Ends : Trace → M ApplyResult → Trace → Type 0
  Ends before m t = Reaches (Outcome S journal plan analyzed before) m t

  pub refused-Ends :
      (before : Trace) (reason : String) (database : Option DatabaseIdentity) (hash : Option String)
      (t : Trace)
      → changes t ≡ before
      → Ends before (finish_refused S journal reason database hash) t
  unfolding finish_refused
  refused-Ends before reason database hash t same = record {
    run = Outcome.refused (
        finish-Finished S journal ReceiptState.refused
          (receipt_result none reason none database hash) before t same);
  }

  -- A rollback, then the end of the receipt.
  rolled_back-Finished :
      (result : ReceiptResult) (before t : Trace)
      → changes t ≡ before
      → Finished S journal ReceiptState.rolled_back result.affected_rows AnyError
          (Effect.rollback ∷ before)
          ((roll_back S >>= λ _. finish (finalizer S journal) ReceiptState.rolled_back result) t)
  unfolding roll_back perform ◌>>=◌
  rolled_back-Finished result before t same =
      finish-Finished S journal ReceiptState.rolled_back result (Effect.rollback ∷ before)
        (Effect.rollback ∷ t) (ap (λ b. Effect.rollback ∷ b) same)

  apply_affected-Ends :
      (before : Trace) (identity : DatabaseIdentity) (hash : String) (count rows : ℕ) (t : Trace)
      → count ≡ plan.preconditions.target_count
      → WasSent S journal plan analyzed (affected rows)
      → changes t ≡ Effect.execute analyzed.normalized (some rows) ∷ before
      → Ends before (apply_affected S journal plan analyzed identity hash count rows) t
  unfolding apply_affected
  apply_affected-Ends before identity hash count rows t planned sent same =
      branch_rule _ _ _ t
        (λ differs. record {
          run =
              Outcome.mismatched rows
                (λ e. ==-eq-false rows count (not-eq-true _ differs) (e ∙ sym planned)) sent
                (rolled_back-Finished _ _ t same);
        })
        (λ agrees.
          let e : rows ≡ plan.preconditions.target_count =
            (==_iff rows count).0 (not-eq-false _ agrees) ∙ planned in
          match_rule _ _ _ t
            (λ x t' run. record {
              run = Outcome.uncertain rows e sent (
                  finish_uncertain-Finished S journal _ _ t' (
                    ap changes (attempt-eq-err _ _ _ t run)
                    ∙ ap (λ b. Effect.commit false ∷ b) same));
            })
            (λ x t' run. record {
              run = Outcome.committed rows e sent (
                  finish_committed-Finished S journal _ _ t' (
                    ap changes (attempt-eq-ok _ _ _ t run)
                    ∙ ap (λ b. Effect.commit true ∷ b) same));
            }))

  apply_executed-Ends :
      (before : Trace) (identity : DatabaseIdentity) (hash : String) (count : ℕ)
      (executed : Executed) (t : Trace)
      → count ≡ plan.preconditions.target_count
      → WasSent S journal plan analyzed executed
      → changes t ≡ Effect.execute analyzed.normalized (executed_rows executed) ∷ before
      → Ends before (apply_executed S journal plan analyzed identity hash count executed) t
  unfolding apply_executed executed_rows
  apply_executed-Ends before identity hash count (affected rows) t planned sent same =
      apply_affected-Ends before identity hash count rows t planned sent same
  apply_executed-Ends before identity hash count (failed state_code) t planned sent same = record {
    run = Outcome.failed state_code sent (rolled_back-Finished _ _ t same);
  }

  -- The answer to the statement, and the trace behind it.
  abbrev Ran : Trace → AppResult Executed × Trace → Type 0
  Ran t (ok executed, t') =
      (S.execute_statement t analyzed.normalized ≡ executed)
      × (t' ≡ Effect.execute analyzed.normalized (executed_rows executed) ∷ t)
  Ran t (err e, t') = ⊥

  run_statement-Ran : (t : Trace) → Ran t (run_statement S analyzed.normalized t)
  unfolding run_statement perform
  run_statement-Ran t = (refl, refl)

  pub apply_statement-Ends :
      (before : Trace) (identity : DatabaseIdentity) (hash : String) (count : ℕ) (endpoint : String)
      (moment t : Trace)
      → count ≡ plan.preconditions.target_count
      → IsAuthorised S plan analyzed endpoint moment
      → t ≡ after_checks S plan analyzed endpoint moment
      → changes t ≡ before
      → Ends before (apply_statement S journal plan analyzed identity hash count) t
  unfolding apply_statement
  apply_statement-Ends before identity hash count endpoint moment t planned authorised now same =
      bind_rule _ _ t (λ e t' run. absurd (subst (Ran t) run (run_statement-Ran t)))
        (λ executed t' run.
          let (answer, behind) = subst (Ran t) run (run_statement-Ran t) in
          apply_executed-Ends before identity hash count executed t' planned
            (record {
              endpoint = endpoint;
              moment = moment;
              authorised = authorised;
              answered =
                  subst (λ m. S.execute_statement m analyzed.normalized ≡ executed) now answer;
            })
            (ap changes behind
              ∙ ap (λ b. Effect.execute analyzed.normalized (executed_rows executed) ∷ b) same))
