-- ===== src/Receipt/PlanWriting.antt =====
-- What `write_plan_new` of src/receipt.rs leaves behind.
use dmlpact.Base.{String, true, false, ◌≡◌, ap, ◌∙◌, ◌∷◌, inl, inr, refl}
use dmlpact.Base.Text.{Bytes}
use dmlpact.Error.{AppResult, ok, err}
use dmlpact.Error.Pure.{ok_or-eq-ok}
use dmlpact.Model.{Plan}
use dmlpact.System.{System, Effect, Trace}
use dmlpact.System.Rules.{
  changes, Reaches, bind_rule, quiet_rule, lift-IsQuiet, attempt-eq-ok, attempt-eq-err,
  lifted_answer,
}
use dmlpact.Receipt.Seal.{verified_plan_sha256}
use dmlpact.Receipt.PlanFile.{write_plan_new}
use dmlpact.Receipt.Opening.{Unopened}
use dmlpact.Receipt.Writing.{IsLine, Wrote, write-Wrote}

-- A plan that passes its check was written to a new file, as its text and a line feed, and synced; or
-- the file is missing, or empty, or its writing failed.
abbrev pub WrotePlan : System → String → Plan → Trace → AppResult (Unit {0}) × Trace → Type 0
WrotePlan S path plan before (ok _, t) =
    ((hash : String) × (verified_plan_sha256 S plan ≡ ok hash))
    × ((bytes : Bytes) × IsLine (S.plan_json_pretty plan) bytes
        × (changes t ≡ Effect.write_file path bytes true ∷ Effect.create_file path true ∷ before))
WrotePlan S path plan before (err e, t) = Unopened path before (changes t)

module _ (S : System) (path : String) (plan : Plan) (before : Trace) where
  wrote_plan :
      (hash : String) (p : AppResult (Unit {0}) × Trace)
      → verified_plan_sha256 S plan ≡ ok hash
      → Wrote (IsLine (S.plan_json_pretty plan)) path (Effect.create_file path true ∷ before) p
      → WrotePlan S path plan before p
  wrote_plan hash (ok _, t) verified w = ((hash, verified), w)
  wrote_plan hash (err e, t) verified (inl w) = inr (inr (inl w))
  wrote_plan hash (err e, t) verified (inr (bytes, _, w)) = inr (inr (inr (bytes, w)))

  pub write_plan_new-WrotePlan :
      (t : Trace)
      → changes t ≡ before
      → Reaches (WrotePlan S path plan before) (write_plan_new S path plan) t
  unfolding write_plan_new
  write_plan_new-WrotePlan t same =
      quiet_rule _ _ t (lift-IsQuiet _) same (λ e t' s. inl s)
        λ hash t₁ run₁ s₁.
          quiet_rule _ _ t₁ (lift-IsQuiet _) s₁ (λ e t' s. inl s)
            λ text t₂ run₂ s₂.
              bind_rule _ _ t₂
                (λ e t₃ run₃. inr (
                  inl (
                    ap changes (attempt-eq-err _ _ _ t₂ run₃)
                    ∙ ap (λ l. Effect.create_file path false ∷ l) s₂)))
                λ _ t₃ run₃.
                  let made =
                    ap changes (attempt-eq-ok _ _ _ t₂ run₃)
                    ∙ ap (λ l. Effect.create_file path true ∷ l) s₂ in
                  record {
                    run =
                        wrote_plan hash _ (lifted_answer (verified_plan_sha256 S plan) t run₁)
                          (write-Wrote (IsLine (S.plan_json_pretty plan)) path _ _ _ _ t₃
                            (record {
                              text = text;
                              serialised = ok_or-eq-ok _ _ (lifted_answer _ t₁ run₂);
                              spelled = refl;
                            })
                            made).run;
                  }
