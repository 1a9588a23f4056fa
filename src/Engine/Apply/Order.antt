-- ===== src/Engine/Apply/Order.antt =====
-- The order of `apply_plan` in src/engine.rs: everything that can be checked without a connection is
-- checked first, then the receipt is opened, and only then the database is touched.
use dmlpact.Base.{ℕ, ◌≤◌, String, true, some, ◌≡◌, refl, ap, ◌∙◌, subst, ◌∷◌, ltb-eq-false}
use dmlpact.Base.{inl}
use dmlpact.Base.Text.{Bytes}
use dmlpact.Error.{AppError, AppResult, ok, err}
use dmlpact.Model.{Plan, ReceiptState, ApplyResult}
use dmlpact.System.{System, Effect, Trace, affected}
use dmlpact.System.Monad.{M, ◌>>=◌}
use dmlpact.System.Rules.{
  changes, Reaches, IsQuiet, bind_rule, quiet_run, lift-IsQuiet, refuse_if-IsQuiet, lifted_answer,
  refused_not,
}
use dmlpact.Integrity.Clock.{unix_ms-eq-ok}
use dmlpact.Sql.Forms.{AnalyzedSql}
use dmlpact.Sql.Document.{analyze_sql}
use dmlpact.Receipt.Journal.{ReceiptJournal, create}
use dmlpact.Receipt.Writing.{IsLine, unix_ms-IsQuiet}
use dmlpact.Receipt.Opening.{IsPreparedFor, Opened, Unopened, Unfinished-Unopened, create-Opened}
use dmlpact.Engine.Limits.{validate_limits}
use dmlpact.Engine.Binding.{validate_plan_binding}
use dmlpact.Engine.Quiet.{
  read_plan-IsQuiet, read_and_analyze-IsQuiet, read_and_analyze-eq-ok, read_plan-eq-ok,
}
use dmlpact.Engine.Apply.{ApplyOptions, apply_plan, apply_after_receipt}
use dmlpact.Engine.Apply.Outcome.{IsEnd, Outcome, WasSent}
use dmlpact.Engine.Apply.Safety.{apply_after_receipt-Outcome, Outcome-committed}

-- What was checked before the receipt was opened: the plan on disk, the text on disk, the clock.
pub record IsAccepted (S : System) (options : ApplyOptions) (plan : Plan) (analyzed : AnalyzedSql)
    : Type 0 where
  pub plan_moment : Trace
  pub bytes : Bytes
  pub plan_read : S.read plan_moment options.plan_path ≡ some bytes
  pub plan_parsed : S.parse_plan bytes ≡ some plan
  pub limits_valid : validate_limits plan.limits ≡ ok tt
  pub text_moment : Trace
  pub raw : String
  pub text_read : S.read_to_string text_moment options.sql_path ≡ some raw
  pub from_text : analyze_sql S raw ≡ ok analyzed
  pub bound : validate_plan_binding plan analyzed ≡ ok tt
  pub clock_moment : Trace
  pub now : ℕ
  pub clock_read : S.now clock_moment ≡ some now
  pub unexpired : now ≤ plan.expires_at_unix_ms

-- The two ways to end: without a receipt, or with one and an outcome of what follows it.
pub data Applied (S : System) (options : ApplyOptions) (before : Trace)
    (out : AppResult ApplyResult × Trace) : Type 0 where
  stopped :
      (e : AppError)
      → out.0 ≡ err e
      → Unopened options.receipt_path before (changes out.1)
      → Applied S options before out
  opened :
      (plan : Plan) (analyzed : AnalyzedSql) (journal : ReceiptJournal) (bytes : Bytes)
      → IsAccepted S options plan analyzed
      → IsPreparedFor S plan analyzed.sql_file_sha256 journal.prepared
      → IsLine (S.event_json journal.prepared) bytes
      → journal.path ≡ options.receipt_path
      → Outcome S journal plan analyzed
          (Effect.write_file options.receipt_path bytes true
            ∷ Effect.create_file options.receipt_path true
            ∷ before)
          out
      → Applied S options before out

module _ (S : System) where
  module _ (options : ApplyOptions) (before : Trace) where
    abbrev Ends : M ApplyResult → Trace → Type 0
    Ends m t = Reaches (Applied S options before) m t

    quiet-Applied {ℓ} :
        {A : Type ℓ} (m : M A) (f : A → M ApplyResult) (t : Trace)
        → IsQuiet m
        → changes t ≡ before
        → ((a : A) (t' : Trace) → m t ≡ (ok a, t') → changes t' ≡ before → Ends (f a) t')
        → Ends (m >>= f) t
    quiet-Applied m f t looks same rest =
        bind_rule m f t (λ e t' run. Applied.stopped e refl (inl (quiet_run looks t run ∙ same)))
          λ a t' run. rest a t' run (quiet_run looks t run ∙ same)

    unopened :
        (plan : Plan) (e : AppError) (t t' : Trace) (file : String)
        → changes t ≡ before
        → create S options.receipt_path plan file t ≡ (err e, t')
        → Unopened options.receipt_path before (changes t')
    unopened plan e t t' file same run =
        subst (λ b. Unopened options.receipt_path b (changes t')) same
          (Unfinished-Unopened S options.receipt_path plan file (changes t) (changes t') (
            subst (Opened S options.receipt_path plan file (changes t)) run
              (create-Opened S options.receipt_path plan file t).run))

    carried_out :
        (plan : Plan) (analyzed : AnalyzedSql) (journal : ReceiptJournal) (t t' : Trace)
        → IsAccepted S options plan analyzed
        → changes t ≡ before
        → Opened S options.receipt_path plan analyzed.sql_file_sha256 (changes t) (ok journal, t')
        → Ends (apply_after_receipt S journal plan analyzed options.database) t'
    carried_out plan analyzed journal t t' accepted same (here, prepared, (bytes, line, wrote)) =
        record {
          run = Applied.opened plan analyzed journal bytes accepted prepared line here (
              subst
                (λ b.
                  Outcome S journal plan analyzed b
                    (apply_after_receipt S journal plan analyzed options.database t'))
                (wrote
                  ∙ ap
                      (λ b.
                        Effect.write_file options.receipt_path bytes true
                        ∷ Effect.create_file options.receipt_path true
                        ∷ b)
                      same)
                (apply_after_receipt-Outcome S journal plan analyzed options.database t'));
        }

    apply_plan-Ends : (t : Trace) → changes t ≡ before → Ends (apply_plan S options) t
    unfolding apply_plan
    apply_plan-Ends t same =
        quiet-Applied _ _ t (read_plan-IsQuiet S options.plan_path) same λ plan t₁ run₁ s₁.
          quiet-Applied _ _ t₁ (lift-IsQuiet _) s₁ λ _ t₂ run₂ s₂.
            quiet-Applied _ _ t₂ (read_and_analyze-IsQuiet S options.sql_path) s₂
              λ analyzed t₃ run₃ s₃. quiet-Applied _ _ t₃ (lift-IsQuiet _) s₃ λ _ t₄ run₄ s₄.
                quiet-Applied _ _ t₄ (unix_ms-IsQuiet S) s₄ λ now t₅ run₅ s₅.
                  quiet-Applied _ _ t₅ (refuse_if-IsQuiet _ _) s₅ λ _ t₆ run₆ s₆.
                    let (plan_moment, file, plan_read, plan_parsed) =
                      read_plan-eq-ok S options.plan_path t run₁ in
                    let (text_moment, raw, text_read, from_text) =
                      read_and_analyze-eq-ok S options.sql_path t₂ run₃ in
                    bind_rule _ _ t₆
                      (λ e t₇ run₇.
                        Applied.stopped e refl
                          (unopened plan e t₆ t₇ analyzed.sql_file_sha256 s₆ run₇))
                      λ journal t₇ run₇.
                        carried_out plan analyzed journal t₆ t₇
                          (record {
                            plan_moment = plan_moment;
                            bytes = file;
                            plan_read = plan_read;
                            plan_parsed = plan_parsed;
                            limits_valid = lifted_answer (validate_limits plan.limits) t₁ run₂;
                            text_moment = text_moment;
                            raw = raw;
                            text_read = text_read;
                            from_text = from_text;
                            bound = lifted_answer (validate_plan_binding plan analyzed) t₃ run₄;
                            clock_moment = t₄;
                            now = now;
                            clock_read = unix_ms-eq-ok S t₄ run₅;
                            unexpired = ltb-eq-false _ _ (refused_not _ _ t₅ run₆);
                          })
                          s₆
                          (subst
                            (Opened S options.receipt_path plan analyzed.sql_file_sha256
                              (changes t₆))
                            run₇
                            (create-Opened S options.receipt_path plan analyzed.sql_file_sha256
                              t₆).run)

  pub apply_plan-Applied :
      (options : ApplyOptions) (t : Trace) → Applied S options (changes t) (apply_plan S options t)
  apply_plan-Applied options t = (apply_plan-Ends options (changes t) t refl).run

  -- What a run that reports `committed` has done, from the changes `before` to the changes `after`.
  pub record Commits (options : ApplyOptions) (before after : Trace) (r : ApplyResult)
      : Type 0 where
    pub plan : Plan
    pub analyzed : AnalyzedSql
    pub journal : ReceiptJournal
    pub accepted : IsAccepted S options plan analyzed
    pub prepared : IsPreparedFor S plan analyzed.sql_file_sha256 journal.prepared
    pub all_rows : r.affected_rows ≡ some plan.preconditions.target_count
    pub within_budget : plan.preconditions.target_count ≤ plan.limits.max_rows
    pub sent : WasSent S journal plan analyzed (affected plan.preconditions.target_count)
    pub prepared_bytes : Bytes
    pub prepared_line : IsLine (S.event_json journal.prepared) prepared_bytes
    pub final_bytes : Bytes
    pub final_line : IsEnd S journal ReceiptState.committed r final_bytes
    pub in_order :
        after
        ≡ Effect.write_file options.receipt_path final_bytes true
          ∷ Effect.commit true
          ∷ Effect.execute analyzed.normalized (some plan.preconditions.target_count)
          ∷ Effect.write_file options.receipt_path prepared_bytes true
          ∷ Effect.create_file options.receipt_path true
          ∷ before

  Applied-committed :
      (options : ApplyOptions) (before t' : Trace) (r : ApplyResult)
      → r.state ≡ ReceiptState.committed
      → Applied S options before (ok r, t')
      → Commits options before (changes t') r
  Applied-committed options before t' r state (Applied.stopped e e' _) = cc
  Applied-committed options before t' r state
        (Applied.opened plan analyzed journal bytes accepted prepared line here outcome) =
      let (rows, budget, sent, (final, end, order)) =
        Outcome-committed S journal plan analyzed _ t' r state outcome in
      let tail =
        Effect.commit true
        ∷ Effect.execute analyzed.normalized (some plan.preconditions.target_count)
        ∷ Effect.write_file options.receipt_path bytes true
        ∷ Effect.create_file options.receipt_path true
        ∷ before in
      record {
        plan = plan;
        analyzed = analyzed;
        journal = journal;
        accepted = accepted;
        prepared = prepared;
        all_rows = rows;
        within_budget = budget;
        sent = sent;
        prepared_bytes = bytes;
        prepared_line = line;
        final_bytes = final;
        final_line = end;
        in_order = order ∙ ap (λ p. Effect.write_file p final true ∷ tail) here;
      }

  -- A run of `apply_plan` that reports `committed` has accepted the plan and the SQL text that it
  -- read, a verified plan, bound to that text and not expired by the clock, and its changes are
  -- exactly these, in this order: a new receipt file, the line of a prepared event for that plan and
  -- text in it, the analysed statement on the planned number of rows at an authorised moment, the
  -- commit, and the line of the terminal event `committed`.
  pub apply_plan-committed :
      (options : ApplyOptions) (t t' : Trace) (r : ApplyResult)
      → apply_plan S options t ≡ (ok r, t')
      → r.state ≡ ReceiptState.committed
      → Commits options (changes t) (changes t') r
  apply_plan-committed options t t' r run state =
      Applied-committed options (changes t) t' r state
        (subst (Applied S options (changes t)) run (apply_plan-Applied options t))
