-- ===== src/Engine/Carried.antt =====
-- A plan that `create_plan` of src/engine.rs has made is carried out by `apply_plan`, if nothing has
-- drifted.
use dmlpact.Base.{ℕ, ◌≤◌, String, some, ◌≡◌, refl, sym, ap, ◌∙◌, not_lt→ltb}
use dmlpact.Error.{ok}
use dmlpact.Error.Pure.{ok-injective}
use dmlpact.Model.{Plan}
use dmlpact.System.{System, Trace}
use dmlpact.System.Steps.{step, lifted, not_refused}
use dmlpact.Integrity.{unix_ms}
use dmlpact.Sql.Forms.{AnalyzedSql}
use dmlpact.Sql.File.{read_and_analyze}
use dmlpact.Sql.Document.{analyze_sql}
use dmlpact.Receipt.PlanFile.{read_plan}
use dmlpact.Receipt.Journal.{ReceiptJournal, create}
use dmlpact.Engine.Binding.{validate_plan_binding}
use dmlpact.Engine.Planning.{PlanOptions, create_plan}
use dmlpact.Engine.Planning.Ready.{IsReady, create_plan-IsReady}
use dmlpact.Engine.Apply.{ApplyOptions, apply_plan, apply_after_receipt}

module _ (S : System) where
  -- From a plan that is ready to the run that starts with its open receipt.
  carried :
      (planning : PlanOptions) (options : ApplyOptions) (plan : Plan) (analyzed : AnalyzedSql)
      (now : ℕ) (journal : ReceiptJournal) (t t₁ t₂ t₃ t₄ : Trace) (ready : IsReady S planning plan)
      → read_plan S options.plan_path t ≡ (ok plan, t₁)
      → read_and_analyze S options.sql_path t₁ ≡ (ok analyzed, t₂)
      → ready.analyzed ≡ analyzed
      → unix_ms S t₂ ≡ (ok now, t₃)
      → now ≤ plan.expires_at_unix_ms
      → create S options.receipt_path plan analyzed.sql_file_sha256 t₃ ≡ (ok journal, t₄)
      → apply_plan S options t ≡ apply_after_receipt S journal plan analyzed options.database t₄
  unfolding apply_plan
  carried planning options plan analyzed now journal t t₁ t₂ t₃ t₄ ready reads analyses same clock
        unexpired opens =
      step _ _ t reads (
        step _ _ t₁ (lifted t₁ ready.limits_valid) (
          step _ _ t₁ analyses (
            step _ _ t₂ (lifted t₂ (ap (validate_plan_binding plan) (sym same) ∙ ready.bound)) (
              step _ _ t₂ clock (
                step _ _ t₃ (not_refused _ _ t₃ (not_lt→ltb plan.expires_at_unix_ms now unexpired))
                  (step _ _ t₃ opens refl))))))

  -- A plan that `create_plan` returns is carried out: if the SQL file that it was made from held a
  -- text with this analysis, and `apply_plan` reads that plan and a text with the same analysis, the
  -- clock has not passed the plan's expiry and the receipt can be opened, then no other check stops
  -- the run before it connects, and it ends as `apply_after_receipt` does from there.
  pub apply_plan-create_plan :
      (planning : PlanOptions) (options : ApplyOptions) (plan : Plan) (now : ℕ)
      (journal : ReceiptJournal) (analyzed : AnalyzedSql) (before after t t₁ t₂ t₃ t₄ : Trace)
      → create_plan S planning before ≡ (ok plan, after)
      → ((moment : Trace) (text : String)
          → S.read_to_string moment planning.sql_path ≡ some text
          → analyze_sql S text ≡ ok analyzed)
      → read_plan S options.plan_path t ≡ (ok plan, t₁)
      → read_and_analyze S options.sql_path t₁ ≡ (ok analyzed, t₂)
      → unix_ms S t₂ ≡ (ok now, t₃)
      → now ≤ plan.expires_at_unix_ms
      → create S options.receipt_path plan analyzed.sql_file_sha256 t₃ ≡ (ok journal, t₄)
      → apply_plan S options t ≡ apply_after_receipt S journal plan analyzed options.database t₄
  apply_plan-create_plan planning options plan now journal analyzed before after t t₁ t₂ t₃ t₄
        planned text reads analyses clock unexpired opens =
      let ready = (create_plan-IsReady S planning before after plan planned).0 in
      carried planning options plan analyzed now journal t t₁ t₂ t₃ t₄ ready reads analyses
        (ok-injective (sym ready.from_text ∙ text ready.text_moment ready.raw ready.text_read))
        clock unexpired opens
