-- ===== src/Engine/Apply/Safety.antt =====
-- What `apply_after_receipt` guarantees, read off its possible outcomes.
use dmlpact.Base.{◌≤◌, true, false, none, some, ◌≡◌, ◌≢◌, refl, sym, ap, ◌∙◌, subst}
use dmlpact.Base.{◌⊎◌, inl, inr, ◌∷◌, arith}
use dmlpact.Base.Text.{Bytes}
use dmlpact.Error.{AppError, AppResult, ok, err, exit_code}
use dmlpact.Model.{Plan, ReceiptState, ApplyResult}
use dmlpact.System.{System, Effect, Trace, Executed, affected}
use dmlpact.System.Rules.{changes}
use dmlpact.Sql.Forms.{AnalyzedSql}
use dmlpact.Receipt.Journal.{ReceiptJournal}
use dmlpact.Engine.Apply.{DatabaseOptions, apply_after_receipt}
use dmlpact.Engine.Apply.Outcome.{IsEnd, Outcome, AnyError, NeedsReconciliation, WasSent}
use dmlpact.Engine.Apply.Trail.{
  statements, commits, statements-changes, commits-changes, Finished-statements, Finished-commits,
}
use dmlpact.Engine.Apply.Checks.{apply_after_receipt-Ends}

refused≢committed : ReceiptState.refused ≢ ReceiptState.committed
refused≢committed e = cc

rolled_back≢committed : ReceiptState.rolled_back ≢ ReceiptState.committed
rolled_back≢committed e = cc

uncertain≢committed : ReceiptState.uncertain ≢ ReceiptState.committed
uncertain≢committed e = cc

module _ (S : System) (journal : ReceiptJournal) (plan : Plan) (analyzed : AnalyzedSql) where
  pub apply_after_receipt-Outcome :
      (options : DatabaseOptions) (t : Trace)
      → Outcome S journal plan analyzed
          (changes t)
          (apply_after_receipt S journal plan analyzed options t)
  apply_after_receipt-Outcome options t =
      (apply_after_receipt-Ends S journal plan analyzed (changes t) options t refl).run

  one_more :
      (t : Trace) (out : AppResult ApplyResult × Trace)
      → statements out.1 ≡ analyzed.normalized ∷ statements (changes t)
      → statements out.1 ≡ analyzed.normalized ∷ statements t
  one_more t out e = e ∙ ap (λ l. analyzed.normalized ∷ l) (statements-changes t)

  abbrev pub Sends : Trace → AppResult ApplyResult × Trace → Type 0
  Sends t out =
      (statements out.1 ≡ statements t)
      ⊎ ((statements out.1 ≡ analyzed.normalized ∷ statements t)
          × ((answer : Executed) × WasSent S journal plan analyzed answer))

  Outcome-statements :
      (t : Trace) (out : AppResult ApplyResult × Trace)
      → Outcome S journal plan analyzed (changes t) out
      → Sends t out
  Outcome-statements t out (Outcome.refused f) =
      inl (Finished-statements S journal _ _ _ _ out f ∙ statements-changes t)
  Outcome-statements t out (Outcome.failed code sent f) =
      inr (one_more t out (Finished-statements S journal _ _ _ _ out f), (_, sent))
  Outcome-statements t out (Outcome.mismatched rows ne sent f) =
      inr (one_more t out (Finished-statements S journal _ _ _ _ out f), (_, sent))
  Outcome-statements t out (Outcome.uncertain rows e sent f) =
      inr (one_more t out (Finished-statements S journal _ _ _ _ out f), (_, sent))
  Outcome-statements t out (Outcome.committed rows e sent f) =
      inr (one_more t out (Finished-statements S journal _ _ _ _ out f), (_, sent))

  pub Outcome-committed :
      (before t' : Trace) (r : ApplyResult)
      → r.state ≡ ReceiptState.committed
      → Outcome S journal plan analyzed (before) (ok r, t')
      → (r.affected_rows ≡ some plan.preconditions.target_count)
        × (plan.preconditions.target_count ≤ plan.limits.max_rows)
        × WasSent S journal plan analyzed (affected plan.preconditions.target_count)
        × ((bytes : Bytes) × IsEnd S journal ReceiptState.committed r bytes
            × (changes t'
                ≡ Effect.write_file journal.path bytes true
                  ∷ Effect.commit true
                  ∷ Effect.execute analyzed.normalized (some plan.preconditions.target_count)
                  ∷ before))
  Outcome-committed before t' r state (Outcome.refused (s, _, _, _)) =
      absurd (refused≢committed (sym s ∙ state))
  Outcome-committed before t' r state (Outcome.failed code sent (s, _, _, _)) =
      absurd (rolled_back≢committed (sym s ∙ state))
  Outcome-committed before t' r state (Outcome.mismatched rows ne sent (s, _, _, _)) =
      absurd (rolled_back≢committed (sym s ∙ state))
  Outcome-committed before t' r state (Outcome.uncertain rows e sent (s, _, _, _)) =
      absurd (uncertain≢committed (sym s ∙ state))
  Outcome-committed before t' r state (Outcome.committed rows e sent (s, n, _, (bytes, end, c))) = (
    n ∙ ap some e,
    sent.authorised.within_budget,
    subst (λ k. WasSent S journal plan analyzed (affected k)) e sent,
    (
      bytes,
      end,
      c
          ∙ ap
              (λ k.
                Effect.write_file journal.path bytes true
                ∷ Effect.commit true
                ∷ Effect.execute analyzed.normalized (some k)
                ∷ before)
              e,
    ),
  )

  Outcome-uncommitted :
      (t t' : Trace) (r : ApplyResult)
      → (r.state ≡ ReceiptState.refused) ⊎ (r.state ≡ ReceiptState.rolled_back)
      → Outcome S journal plan analyzed (changes t) (ok r, t')
      → commits t' ≡ commits t
  Outcome-uncommitted t t' r state (Outcome.refused f) =
      Finished-commits S journal _ _ AnyError _ (ok r, t') f ∙ commits-changes t
  Outcome-uncommitted t t' r state (Outcome.failed code sent f) =
      Finished-commits S journal _ _ AnyError _ (ok r, t') f ∙ commits-changes t
  Outcome-uncommitted t t' r state (Outcome.mismatched rows ne sent f) =
      Finished-commits S journal _ _ AnyError _ (ok r, t') f ∙ commits-changes t
  Outcome-uncommitted t t' r state (Outcome.uncertain rows e sent (s, _, _, _)) = ground arith
  Outcome-uncommitted t t' r state (Outcome.committed rows e sent (s, _, _, _)) = ground arith

  Outcome-error :
      (t t' : Trace) (x : AppError)
      → Outcome S journal plan analyzed (changes t) (err x, t')
      → (commits t' ≡ commits t)
        ⊎ ((commits t' ≡ false ∷ commits t)
            × (exit_code x.class ≡ 5)
            × (x.code ≡ "commit_receipt_finalization_uncertain"))
        ⊎ ((commits t' ≡ true ∷ commits t)
            × (exit_code x.class ≡ 5)
            × (x.code ≡ "committed_receipt_finalization_uncertain"))
  unfolding exit_code
  Outcome-error t t' x (Outcome.refused f) = inl (
      Finished-commits S journal ReceiptState.refused none AnyError _ (err x, t') f
      ∙ commits-changes t)
  Outcome-error t t' x (Outcome.failed code sent f) = inl (
      Finished-commits S journal ReceiptState.rolled_back none AnyError _ (err x, t') f
      ∙ commits-changes t)
  Outcome-error t t' x (Outcome.mismatched rows ne sent f) = inl (
      Finished-commits S journal ReceiptState.rolled_back (some rows) AnyError _ (err x, t') f
      ∙ commits-changes t)
  Outcome-error t t' x (Outcome.uncertain rows e sent f) = inr (
      inl (
        Finished-commits S journal ReceiptState.uncertain (some rows)
              (NeedsReconciliation "commit_receipt_finalization_uncertain") _ (err x, t') f
            ∙ ap (λ l. false ∷ l) (commits-changes t),
        ap exit_code f.0.0,
        f.0.1,
      ))
  Outcome-error t t' x (Outcome.committed rows e sent f) = inr (
      inr (
        Finished-commits S journal ReceiptState.committed (some rows)
              (NeedsReconciliation "committed_receipt_finalization_uncertain") _ (err x, t') f
            ∙ ap (λ l. true ∷ l) (commits-changes t),
        ap exit_code f.0.0,
        f.0.1,
      ))

  -- A run sends no statement, or exactly the analysed one, once, at an authorised moment.
  pub apply_after_receipt-statements :
      (options : DatabaseOptions) (t : Trace)
      → Sends t (apply_after_receipt S journal plan analyzed options t)
  apply_after_receipt-statements options t =
      Outcome-statements t _ (apply_after_receipt-Outcome options t)

  -- A run that reports `committed` has committed exactly the planned number of rows, within the
  -- budget, changed by the analysed statement at an authorised moment; after the commit the line of
  -- a terminal event `committed` with these rows, sealed at a time of the clock as the successor of
  -- the prepared event, was written to the receipt, and nothing else was changed.
  pub apply_after_receipt-committed :
      (options : DatabaseOptions) (t t' : Trace) (r : ApplyResult)
      → apply_after_receipt S journal plan analyzed options t ≡ (ok r, t')
      → r.state ≡ ReceiptState.committed
      → (r.affected_rows ≡ some plan.preconditions.target_count)
        × (plan.preconditions.target_count ≤ plan.limits.max_rows)
        × WasSent S journal plan analyzed (affected plan.preconditions.target_count)
        × ((bytes : Bytes) × IsEnd S journal ReceiptState.committed r bytes
            × (changes t'
                ≡ Effect.write_file journal.path bytes true
                  ∷ Effect.commit true
                  ∷ Effect.execute analyzed.normalized (some plan.preconditions.target_count)
                  ∷ changes t))
  apply_after_receipt-committed options t t' r run state =
      Outcome-committed (changes t) t' r state (
        subst (Outcome S journal plan analyzed (changes t)) run
          (apply_after_receipt-Outcome options t))

  -- A run that reports `refused` or `rolled_back` has tried no commit.
  pub apply_after_receipt-uncommitted :
      (options : DatabaseOptions) (t t' : Trace) (r : ApplyResult)
      → apply_after_receipt S journal plan analyzed options t ≡ (ok r, t')
      → (r.state ≡ ReceiptState.refused) ⊎ (r.state ≡ ReceiptState.rolled_back)
      → commits t' ≡ commits t
  apply_after_receipt-uncommitted options t t' r run state = Outcome-uncommitted t t' r state (
      subst (Outcome S journal plan analyzed (changes t)) run
        (apply_after_receipt-Outcome options t))

  -- An error after a commit was tried has exit code 5 and asks for reconciliation; any other error
  -- comes from a run that tried no commit.
  pub apply_after_receipt-error :
      (options : DatabaseOptions) (t t' : Trace) (e : AppError)
      → apply_after_receipt S journal plan analyzed options t ≡ (err e, t')
      → (commits t' ≡ commits t)
        ⊎ ((commits t' ≡ false ∷ commits t)
            × (exit_code e.class ≡ 5)
            × (e.code ≡ "commit_receipt_finalization_uncertain"))
        ⊎ ((commits t' ≡ true ∷ commits t)
            × (exit_code e.class ≡ 5)
            × (e.code ≡ "committed_receipt_finalization_uncertain"))
  apply_after_receipt-error options t t' e run = Outcome-error t t' e (
      subst (Outcome S journal plan analyzed (changes t)) run
        (apply_after_receipt-Outcome options t))
