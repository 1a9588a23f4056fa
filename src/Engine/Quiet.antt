-- ===== src/Engine/Quiet.antt =====
-- The evidence on the target rows, and the readings of `apply_plan`, change nothing.
use dmlpact.Model.{Plan}
use dmlpact.Base.Text.{Bytes}
use dmlpact.Receipt.Version.{contract}
use dmlpact.Error.{app_error, io}
use dmlpact.Error.Pure.{ok-injective, ok_or, ok_or-eq-ok}
use dmlpact.Base.{◌∙◌}
use dmlpact.Base.{ap}
use dmlpact.Base.{ℕ, String, Option, none, some, ◌≡◌}
use dmlpact.Error.{ok}
use dmlpact.System.{System, Effect, Trace}
use dmlpact.System.Monad.{ask_or, lift, pure, M, >>=-eq-ok}
use dmlpact.System.Rules.{IsQuiet, quiet_rules, lifted_answer, asked_answer}
use dmlpact.Sql.Forms.{AnalyzedSql}
use dmlpact.Sql.Document.{analyze_sql}
use dmlpact.Sql.File.{read_and_analyze}
use dmlpact.Receipt.PlanFile.{read_plan}
use dmlpact.Engine.Target.{target_count, target_set_sha256}

option-IsQuiet {ℓ} :
    {A : Type ℓ} (o : Option String) (on_none : M A) (on_some : String → M A)
    → IsQuiet on_none
    → ((s : String) → IsQuiet (on_some s))
    → IsQuiet {A = A} (elim o [ none ↦ on_none | some s ↦ on_some s ])
option-IsQuiet none on_none on_some h k = h
option-IsQuiet (some s) on_none on_some h k = k s

module _ (S : System) where
  pub target_count-IsQuiet : (analyzed : AnalyzedSql) → IsQuiet (target_count S analyzed)
  unfolding target_count
  target_count-IsQuiet analyzed =
      option-IsQuiet analyzed.count_sql _ _ (search quiet_rules) (λ query. search quiet_rules)

  pub target_set_sha256-IsQuiet :
      (analyzed : AnalyzedSql) (count : ℕ) → IsQuiet (target_set_sha256 S analyzed count)
  unfolding target_set_sha256
  target_set_sha256-IsQuiet analyzed count =
      option-IsQuiet analyzed.target_rows_sql _ _ (search quiet_rules) (λ query. search quiet_rules)

  pub read_plan-IsQuiet : (path : String) → IsQuiet (read_plan S path)
  unfolding read_plan
  read_plan-IsQuiet path = search quiet_rules depth 12

  pub read_and_analyze-IsQuiet : (path : String) → IsQuiet (read_and_analyze S path)
  unfolding read_and_analyze
  read_and_analyze-IsQuiet path = search quiet_rules depth 12

  -- An analysis that was read is the analysis of the file's text.
  pub read_and_analyze-eq-ok :
      (path : String) (t : Trace) {analyzed : AnalyzedSql} {t' : Trace}
      → read_and_analyze S path t ≡ (ok analyzed, t')
      → (moment : Trace) × (raw : String) × (S.read_to_string moment path ≡ some raw)
        × (analyze_sql S raw ≡ ok analyzed)
  unfolding read_and_analyze
  read_and_analyze-eq-ok path t run =
      let (_, _, _, run₁) = >>=-eq-ok _ _ t run in
      let (_, _, _, run₂) = >>=-eq-ok _ _ _ run₁ in
      let (_, t₃, _, run₃) = >>=-eq-ok _ _ _ run₂ in
      let (raw, _, answer, run₄) =
        >>=-eq-ok
          (ask_or (Effect.read_text path) (λ u. S.read_to_string u path)
            (app_error io "sql_file_not_utf8" "the SQL file must be valid UTF-8"))
          _ t₃ run₃ in
      (
        t₃,
        raw,
        asked_answer (Effect.read_text path) (λ u. S.read_to_string u path) _ t₃ answer,
        lifted_answer (analyze_sql S raw) _ run₄,
      )

  -- A plan that was read is what the reader makes of the file's bytes.
  pub read_plan-eq-ok :
      (path : String) (t : Trace) {plan : Plan} {t' : Trace}
      → read_plan S path t ≡ (ok plan, t')
      → (moment : Trace) × (bytes : Bytes) × (S.read moment path ≡ some bytes)
        × (S.parse_plan bytes ≡ some plan)
  unfolding read_plan pure
  read_plan-eq-ok path t run =
      let (_, _, _, run₁) = >>=-eq-ok _ _ t run in
      let (_, t₂, _, run₂) = >>=-eq-ok _ _ _ run₁ in
      let (bytes, t₃, answer, run₃) =
        >>=-eq-ok
          (ask_or (Effect.read_file path) (λ u. S.read u path)
            (app_error io "plan_unreadable" "the plan file could not be read"))
          _ t₂ run₂ in
      let (_, t₄, _, run₄) = >>=-eq-ok _ _ t₃ run₃ in
      let (plan', t₅, parsed, run₅) =
        >>=-eq-ok
          (lift (
            ok_or (S.parse_plan bytes) (
              contract "plan_json_invalid" "the plan is not a valid strict dmlpact plan document")))
          _ t₄ run₄ in
      let (_, _, _, run₆) = >>=-eq-ok _ _ t₅ run₅ in
      (
        t₂,
        bytes,
        asked_answer (Effect.read_file path) (λ u. S.read u path) _ t₂ answer,
        ok_or-eq-ok _ _ (lifted_answer _ t₄ parsed) ∙ ap some (ok-injective (ap (λ p. p.0) run₆)),
      )
