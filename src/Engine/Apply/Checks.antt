-- ===== src/Engine/Apply/Checks.antt =====
-- The stages of `apply_after_receipt` before the statement: each refuses, or goes on with what it
-- has checked.
use dmlpact.Base.{ℕ, ◌≤◌, String, Option, ◌≡◌, refl, sym, ap, ◌∙◌, subst, ==_iff, not, text_eq}
use dmlpact.Base.{eq_iff, ||-eq-false, not-eq-false, ltb-eq-false, true, false, ◌∷◌}
use dmlpact.Error.{AppResult, ok}
use dmlpact.Model.{Plan, DatabaseIdentity, ReceiptState, differ-eq-false, DatabaseIdentity-discrete}
use dmlpact.System.{System, Effect, Trace}
use dmlpact.System.Rules.{
  changes, match_rule, branch_rule, attempt-eq-ok, attempt-eq-err, quiet_run, lift-IsQuiet,
  lifted_answer,
}
use dmlpact.System.Monad.{lift}
use dmlpact.Db.Quiet.{
  database_identity-IsQuiet, table_evidence-IsQuiet, apply_local_timeouts-IsQuiet,
  connect_database-IsQuiet,
}
use dmlpact.Sql.Forms.{AnalyzedSql}
use dmlpact.Receipt.Journal.{ReceiptJournal}
use dmlpact.Engine.Quiet.{target_count-IsQuiet, target_set_sha256-IsQuiet}
use dmlpact.Engine.Finish.{finish_refused}
use dmlpact.Engine.Target.{target_count, target_set_sha256}
use dmlpact.Db.Evidence.{database_identity, table_evidence}
use dmlpact.Db.Connect.{ConnectedDatabase}
use dmlpact.Engine.Apply.{
  DatabaseOptions, lock_query, apply_matched, apply_identified, apply_locked, apply_connected,
  apply_after_receipt,
}
use dmlpact.Engine.Apply.Outcome.{
  Outcome, TableMatches, after_identity, after_evidence, after_count, after_checks,
}
use dmlpact.Engine.Apply.Ending.{finish-Finished}
use dmlpact.Engine.Apply.Execution.{Ends, refused-Ends, apply_statement-Ends}

text_same : (a b : String) → not (text_eq a b) ≡ false → a ≡ b
text_same a b h = (eq_iff a b).0 (not-eq-false _ h)

-- A known run from `t`, read at the moment `m` that `t` is.
module _ {A : Type 0} (f : Trace → AppResult A × Trace) {t m t' : Trace} {r : AppResult A} where
  answered : t ≡ m → f t ≡ (r, t') → (f m).0 ≡ r
  answered now run = subst (λ x. (f x).0 ≡ r) now (ap (λ p. p.0) run)

  continued : t ≡ m → f t ≡ (r, t') → t' ≡ (f m).1
  continued now run = subst (λ x. t' ≡ (f x).1) now (sym (ap (λ p. p.1) run))

-- The trace behind a value that was computed without touching the outside.
module _ {A : Type 0} (x : AppResult A) (t : Trace) {r : AppResult A} {t' : Trace} where
  lifted_trace : lift x t ≡ (r, t') → t' ≡ t
  unfolding lift
  lifted_trace run = sym (ap (λ p. p.1) run)

module _ (S : System) (journal : ReceiptJournal) (plan : Plan) (analyzed : AnalyzedSql)
    (before : Trace) where
  refuse_here :
      (reason : String) (database : Option DatabaseIdentity) (hash : Option String) (t : Trace)
      → changes t ≡ before
      → Ends S journal plan analyzed before (finish_refused S journal reason database hash) t
  refuse_here = refused-Ends S journal plan analyzed before

  -- The hash of the rows was taken over the planned number of them.
  same_rows :
      (count : ℕ) (hash endpoint : String) (moment t t' : Trace)
      → count ≡ plan.preconditions.target_count
      → hash ≡ plan.preconditions.target_set_sha256
      → t ≡ after_count S plan analyzed endpoint moment
      → target_set_sha256 S analyzed count t ≡ (ok hash, t')
      → ((target_set_sha256 S analyzed plan.preconditions.target_count
            (after_count S plan analyzed endpoint moment)).0
          ≡ ok plan.preconditions.target_set_sha256)
        × (t' ≡ after_checks S plan analyzed endpoint moment)
  same_rows count hash endpoint moment t t' planned h now run =
      let run' : target_set_sha256 S analyzed plan.preconditions.target_count t ≡ (ok hash, t') =
        subst (λ n. target_set_sha256 S analyzed n t ≡ (ok hash, t')) planned run in
      (
        answered (target_set_sha256 S analyzed plan.preconditions.target_count) now run' ∙ ap ok h,
        continued (target_set_sha256 S analyzed plan.preconditions.target_count) now run',
      )

  apply_matched-Ends :
      (identity : DatabaseIdentity) (hash endpoint : String) (moment t : Trace)
      → TableMatches S plan analyzed endpoint moment
      → t ≡ after_evidence S plan analyzed endpoint moment
      → changes t ≡ before
      → Ends S journal plan analyzed before (apply_matched S journal plan analyzed identity hash) t
  unfolding apply_matched
  apply_matched-Ends identity hash endpoint moment t matches now same =
      match_rule _ _ _ t
        (λ e t₁ run.
          refuse_here _ _ _ t₁ (quiet_run (target_count-IsQuiet S analyzed) t run ∙ same))
        λ count t₁ run₁.
          let same₁ : changes t₁ ≡ before =
            quiet_run (target_count-IsQuiet S analyzed) t run₁ ∙ same in
          branch_rule _ _ _ t₁ (λ _. refuse_here _ _ _ t₁ same₁)
            λ agrees.
              branch_rule _ _ _ t₁ (λ _. refuse_here _ _ _ t₁ same₁)
                λ fits.
                  match_rule _ _ _ t₁
                    (λ e t₂ run.
                      refuse_here _ _ _ t₂
                        (quiet_run (target_set_sha256-IsQuiet S analyzed count) t₁ run ∙ same₁))
                    λ rows_hash t₂ run₂.
                      let same₂ : changes t₂ ≡ before =
                        quiet_run (target_set_sha256-IsQuiet S analyzed count) t₁ run₂ ∙ same₁ in
                      branch_rule _ _ _ t₂ (λ _. refuse_here _ _ _ t₂ same₂)
                        λ hashes_agree.
                          let planned : count ≡ plan.preconditions.target_count =
                            (==_iff count _).0 (not-eq-false _ agrees) in
                          let (rows, now₂) =
                            same_rows count rows_hash endpoint moment t₁ t₂ planned
                              (text_same _ _ hashes_agree)
                              (continued (target_count S analyzed) now run₁) run₂ in
                          apply_statement-Ends S journal plan analyzed before identity hash count
                            endpoint moment t₂ planned
                            (record {
                              table_matches = matches;
                              same_count =
                                  answered (target_count S analyzed) now run₁ ∙ ap ok planned;
                              within_budget =
                                  subst (λ n. n ≤ plan.limits.max_rows) planned
                                    (ltb-eq-false _ _ fits);
                              same_rows = rows;
                            })
                            now₂ same₂

  apply_identified-Ends :
      (identity : DatabaseIdentity) (endpoint : String) (moment unlocked t : Trace)
      → moment ≡ Effect.batch (lock_query plan) true ∷ unlocked
      → (database_identity S endpoint moment).0 ≡ ok plan.preconditions.database
      → t ≡ after_identity S plan analyzed endpoint moment
      → changes t ≡ before
      → Ends S journal plan analyzed before (apply_identified S journal plan analyzed identity) t
  unfolding apply_identified
  apply_identified-Ends identity endpoint moment unlocked t locked database now same =
      match_rule _ _ _ t
        (λ e t₁ run.
          refuse_here _ _ _ t₁
            (quiet_run (table_evidence-IsQuiet S analyzed.requested_table) t run ∙ same))
        λ evidence t₁ run₁.
          let same₁ : changes t₁ ≡ before =
            quiet_run (table_evidence-IsQuiet S analyzed.requested_table) t run₁ ∙ same in
          let now₁ : t₁ ≡ after_evidence S plan analyzed endpoint moment =
            continued (table_evidence S analyzed.requested_table) now run₁ in
          match_rule _ _ _ t₁
            (λ e t₂ run. refuse_here _ _ _ t₂ (quiet_run (lift-IsQuiet _) t₁ run ∙ same₁))
            λ hash t₂ run₂.
              let stay₂ : t₂ ≡ t₁ = lifted_trace _ _ run₂ in
              let same₂ : changes t₂ ≡ before = ap changes stay₂ ∙ same₁ in
              branch_rule _ _ _ t₂ (λ _. refuse_here _ _ _ t₂ same₂)
                λ agrees.
                  let (tables, hashes) = ||-eq-false _ _ agrees in
                  match_rule _ _ _ t₂
                    (λ e t₃ run. refuse_here _ _ _ t₃ (quiet_run (lift-IsQuiet _) t₂ run ∙ same₂))
                    λ allowed t₃ run₃.
                      let stay₃ : t₃ ≡ t₂ = lifted_trace _ _ run₃ in
                      apply_matched-Ends identity hash endpoint moment t₃
                        (record {
                          unlocked = unlocked;
                          locked = locked;
                          same_database = database;
                          evidence = evidence;
                          found = answered (table_evidence S analyzed.requested_table) now run₁;
                          same_table = text_same _ _ tables;
                          same_schema = lifted_answer _ _ run₂ ∙ ap ok (text_same _ _ hashes);
                          allowed = lifted_answer _ _ run₃;
                        })
                        (stay₃ ∙ stay₂ ∙ now₁) (ap changes stay₃ ∙ same₂)

  apply_locked-Ends :
      (endpoint : String) (t : Trace)
      → changes t ≡ before
      → Ends S journal plan analyzed before (apply_locked S journal plan analyzed endpoint) t
  unfolding apply_locked
  apply_locked-Ends endpoint t same =
      match_rule _ _ _ t
        (λ e t₁ run. refuse_here _ _ _ t₁ (ap changes (attempt-eq-err _ _ _ t run) ∙ same))
        λ _ t₁ run₁.
          let locked : t₁ ≡ Effect.batch (lock_query plan) true ∷ t = attempt-eq-ok _ _ _ t run₁ in
          match_rule _ _ _ t₁
            (λ e t₂ run.
              refuse_here _ _ _ t₂ (
                quiet_run (database_identity-IsQuiet S endpoint) t₁ run ∙ ap changes locked ∙ same))
            λ identity t₂ run₂.
              let same₂ : changes t₂ ≡ before =
                quiet_run (database_identity-IsQuiet S endpoint) t₁ run₂
                ∙ ap changes locked
                ∙ same in
              branch_rule _ _ _ t₂ (λ _. refuse_here _ _ _ t₂ same₂)
                λ agrees.
                  apply_identified-Ends identity endpoint t₁ t t₂ locked
                    (answered (database_identity S endpoint) refl run₂
                      ∙ ap ok (differ-eq-false DatabaseIdentity-discrete _ _ agrees))
                    (continued (database_identity S endpoint) refl run₂) same₂

  apply_connected-Ends :
      (database : ConnectedDatabase) (t : Trace)
      → changes t ≡ before
      → Ends S journal plan analyzed before (apply_connected S journal plan analyzed database) t
  unfolding apply_connected
  apply_connected-Ends database t same =
      branch_rule _ _ _ t (λ _. refuse_here _ _ _ t same)
        λ _.
          match_rule _ _ _ t
            (λ e t₁ run. refuse_here _ _ _ t₁ (ap changes (attempt-eq-err _ _ _ t run) ∙ same))
            λ _ t₁ run₁.
              let same₁ : changes t₁ ≡ before = ap changes (attempt-eq-ok _ _ _ t run₁) ∙ same in
              match_rule _ _ _ t₁
                (λ e t₂ run.
                  refuse_here _ _ _ t₂
                    (quiet_run (apply_local_timeouts-IsQuiet S plan.limits) t₁ run ∙ same₁))
                λ _ t₂ run₂.
                  apply_locked-Ends database.endpoint_sha256 t₂
                    (quiet_run (apply_local_timeouts-IsQuiet S plan.limits) t₁ run₂ ∙ same₁)

  pub apply_after_receipt-Ends :
      (options : DatabaseOptions) (t : Trace)
      → changes t ≡ before
      → Ends S journal plan analyzed before (apply_after_receipt S journal plan analyzed options) t
  unfolding apply_after_receipt
  apply_after_receipt-Ends options t same =
      branch_rule _ _ _ t (λ _. refuse_here _ _ _ t same)
        λ _.
          match_rule _ _ _ t
            (λ e t₁ run. record {
              run = Outcome.refused (
                  finish-Finished S journal ReceiptState.refused _ before t₁
                    (quiet_run (connect_database-IsQuiet S _ _) t run ∙ same));
            })
            λ database t₁ run.
              apply_connected-Ends database t₁
                (quiet_run (connect_database-IsQuiet S _ _) t run ∙ same)
