-- ===== src/Engine/Apply/Progress.antt =====
-- What `apply_after_receipt` of src/engine.rs does when nothing stands in its way: it commits.
use dmlpact.Base.{
  ℕ, String, Bool, true, false, ◌||◌, not, ◌==◌, text_eq, none, some, ◌≡◌, refl, ap, ◌∙◌, ◌∷◌,
  ==_iff, text_eq_self, not_lt→ltb,
}
use dmlpact.Error.{AppResult, ok}
use dmlpact.Model.{
  Plan, DatabaseIdentity, ReceiptState, ReceiptResult, ReceiptEvent, ApplyResult, TransportPolicy,
  differ, same_self, DatabaseIdentity-discrete, TransportPolicy-discrete,
}
use dmlpact.System.{System, Effect, Trace, affected}
use dmlpact.System.Monad.{M, perform, pure}
use dmlpact.System.Steps.{step, lifted, matched, branched_false, attempted, kept}
use dmlpact.Db.Connect.{ConnectedDatabase, connect_database}
use dmlpact.Db.Evidence.{table_evidence, database_identity, apply_local_timeouts}
use dmlpact.Sql.Forms.{AnalyzedSql}
use dmlpact.Receipt.Journal.{ReceiptJournal, finalize}
use dmlpact.Engine.Finish.{finalizer, receipt_result, apply_result, finish, finish_committed}
use dmlpact.Engine.Target.{target_count, target_set_sha256}
use dmlpact.Engine.Apply.{
  DatabaseOptions, executed_rows, requested_transport, lock_query, run_statement, apply_affected,
  apply_executed, apply_statement, apply_matched, apply_identified, apply_locked, apply_connected,
  apply_after_receipt,
}
use dmlpact.Engine.Apply.Outcome.{IsAuthorised, after_identity, after_evidence, after_checks}

-- An answer, with the trace behind it.
with_trace {ℓ} :
    {A : Type ℓ} (f : M A) (t : Trace) {r : AppResult A} → (f t).0 ≡ r → f t ≡ (r, (f t).1)
with_trace f t e = λ i. (e i, (f t).1)

counted_same : (n : ℕ) → not (n == n) ≡ false
counted_same n = ap not ((==_iff n n).1 refl)

text_agrees : (a b : String) → a ≡ b → not (text_eq a b) ≡ false
text_agrees a b e = ap (λ x. not (text_eq x b)) e ∙ ap not (text_eq_self b)

both_agree : (a b : Bool) → a ≡ false → b ≡ false → (a || b) ≡ false
both_agree a b e e' = rw (e, e') refl

agreed : (d : DatabaseIdentity) → differ DatabaseIdentity-discrete d d ≡ false
agreed d = ap not (same_self DatabaseIdentity-discrete d)

transport_agrees : (a b : TransportPolicy) → a ≡ b → differ TransportPolicy-discrete a b ≡ false
transport_agrees a b e =
    ap (λ x. differ TransportPolicy-discrete x b) e ∙ ap not (same_self TransportPolicy-discrete b)

module _ (S : System) (journal : ReceiptJournal) (plan : Plan) (analyzed : AnalyzedSql) where
  abbrev planned : ℕ
  planned = plan.preconditions.target_count

  abbrev identity : DatabaseIdentity
  identity = plan.preconditions.database

  abbrev schema_hash : String
  schema_hash = plan.preconditions.table_schema_sha256

  -- The result that the receipt of a commit is finished with.
  abbrev pub committed_result : ReceiptResult
  committed_result = receipt_result (some planned) "applied" none (some identity) (some schema_hash)

  -- What is left to go well from the moment `t`: the statement, the commit and the terminal event.
  pub record GoesWell (t : Trace) (event : ReceiptEvent) (end : Trace) : Type 0 where
    pub executed : S.execute_statement t analyzed.normalized ≡ affected planned
    pub commits :
        S.commit_transaction (Effect.execute analyzed.normalized (some planned) ∷ t) ≡ true
    pub finalized :
        finalize S journal ReceiptState.committed committed_result
          (Effect.commit true ∷ Effect.execute analyzed.normalized (some planned) ∷ t)
        ≡ (ok event, end)

  finished :
      (t : Trace) (event : ReceiptEvent) (end : Trace)
      → finalize S journal ReceiptState.committed committed_result t ≡ (ok event, end)
      → finish_committed (finalizer S journal) committed_result t ≡ (
        ok (apply_result (finalizer S journal) ReceiptState.committed committed_result event),
        end,
      )
  unfolding finish_committed finish pure
  finished t event end run =
      let inner : finish (finalizer S journal) ReceiptState.committed committed_result t ≡ (
        ok (apply_result (finalizer S journal) ReceiptState.committed committed_result event),
        end,
      ) =
        step (finalize S journal ReceiptState.committed committed_result) _ t run refl in
      kept (finish (finalizer S journal) ReceiptState.committed committed_result) _ t inner

  -- The run that ends well.
  abbrev pub success : ReceiptEvent → Trace → AppResult ApplyResult × Trace
  success event end =
      (ok (apply_result (finalizer S journal) ReceiptState.committed committed_result event), end)

  apply_statement-success :
      (t : Trace) (event : ReceiptEvent) (end : Trace)
      → GoesWell t event end
      → apply_statement S journal plan analyzed identity schema_hash planned t ≡ success event end
  unfolding apply_statement apply_executed apply_affected run_statement perform executed_rows
  apply_statement-success t event end well =
      step (run_statement S analyzed.normalized) _ t
        (ap (λ a. (ok a, Effect.execute analyzed.normalized (executed_rows a) ∷ t)) well.executed)
        (branched_false _ _ _ _ (counted_same planned)
          ∙ matched _ _ _ _ (attempted _ _ _ _ well.commits) (finished _ event end well.finalized))

  apply_matched-success :
      (endpoint : String) (moment : Trace) (event : ReceiptEvent) (end : Trace)
      → IsAuthorised S plan analyzed endpoint moment
      → GoesWell (after_checks S plan analyzed endpoint moment) event end
      → apply_matched S journal plan analyzed identity schema_hash
          (after_evidence S plan analyzed endpoint moment)
        ≡ success event end
  unfolding apply_matched
  apply_matched-success endpoint moment event end a well =
      matched _ _ _ _ (with_trace (target_count S analyzed) _ a.same_count) (
        branched_false _ _ _ _ (counted_same planned)
        ∙ branched_false _ _ _ _ (not_lt→ltb plan.limits.max_rows planned a.within_budget)
        ∙ matched _ _ _ _ (with_trace (target_set_sha256 S analyzed planned) _ a.same_rows) (
            branched_false _ _ _ _ (text_agrees _ _ refl)
            ∙ apply_statement-success _ event end well))

  apply_identified-success :
      (endpoint : String) (moment : Trace) (event : ReceiptEvent) (end : Trace)
      → IsAuthorised S plan analyzed endpoint moment
      → GoesWell (after_checks S plan analyzed endpoint moment) event end
      → apply_identified S journal plan analyzed identity
          (after_identity S plan analyzed endpoint moment)
        ≡ success event end
  unfolding apply_identified
  apply_identified-success endpoint moment event end a well =
      let m = a.table_matches in
      matched _ _ _ _ (with_trace (table_evidence S analyzed.requested_table) _ m.found) (
        matched _ _ _ _ (lifted _ m.same_schema) (
          branched_false _ _ _ _
            (both_agree _ _ (text_agrees _ _ m.same_table) (text_agrees schema_hash _ refl))
          ∙ matched _ _ _ _ (lifted _ m.allowed)
              (apply_matched-success endpoint moment event end a well)))

  -- A plan that still describes the database is applied: if the connection, the transaction, its
  -- timeouts and the lock succeed, the moment after the lock is authorised, the statement changes the
  -- planned number of rows, the commit succeeds and the terminal event can be written, then
  -- `apply_after_receipt` reports `committed`, with the planned number of rows.
  pub apply_after_receipt-success :
      (options : DatabaseOptions) (t connected configured : Trace) (database : ConnectedDatabase)
      (event : ReceiptEvent) (end : Trace)
      → requested_transport options ≡ plan.transport_policy
      → connect_database S options.environment_name options.allow_insecure_localhost t
        ≡ (ok database, connected)
      → database.transport_policy ≡ plan.transport_policy
      → S.begin_transaction connected false ≡ true
      → apply_local_timeouts S plan.limits (Effect.begin false true ∷ connected)
        ≡ (ok tt, configured)
      → S.batch_execute configured (lock_query plan) ≡ true
      → IsAuthorised S plan analyzed database.endpoint_sha256
          (Effect.batch (lock_query plan) true ∷ configured)
      → GoesWell
          (after_checks S plan analyzed database.endpoint_sha256
            (Effect.batch (lock_query plan) true ∷ configured))
          event
          end
      → apply_after_receipt S journal plan analyzed options t ≡ success event end
  unfolding apply_after_receipt apply_connected apply_locked
  apply_after_receipt-success options t connected configured database event end requested connects
        transport begins timeouts locks a well =
      branched_false _ _ _ _ (transport_agrees _ _ requested)
      ∙ matched _ _ _ _ connects (
          branched_false _ _ _ _ (transport_agrees _ _ transport)
          ∙ matched _ _ _ _ (attempted _ _ _ _ begins) (
              matched _ _ _ _ timeouts (
                matched _ _ _ _ (attempted _ _ _ _ locks) (
                  matched _ _ _ _
                    (with_trace (database_identity S database.endpoint_sha256) _
                      a.table_matches.same_database)
                    (branched_false _ _ _ _ (agreed identity)
                      ∙ apply_identified-success database.endpoint_sha256
                          (Effect.batch (lock_query plan) true ∷ configured) event end a well)))))
