-- ===== src/Engine/Planning/Ready.antt =====
-- A plan of `create_plan` against the checks of `apply_plan`, both in src/engine.rs.
use dmlpact.Base.{some, ◌+◌, String, ◌≡◌, ap, sym, ◌∙◌, subst}
use dmlpact.Error.{ok}
use dmlpact.Model.{Plan}
use dmlpact.System.{System, Trace}
use dmlpact.System.Rules.{changes}
use dmlpact.Sql.Forms.{AnalyzedSql}
use dmlpact.Sql.Document.{analyze_sql}
use dmlpact.Receipt.Seal.{verified_plan_sha256}
use dmlpact.Engine.Limits.{validate_limits}
use dmlpact.Engine.Binding.{validate_plan_binding}
use dmlpact.Engine.Planning.{PlanOptions, create_plan, draft_plan}
use dmlpact.Engine.Planning.Made.{IsMade, Planned, validate_plan_binding-draft_plan}
use dmlpact.Engine.Planning.Making.{create_plan-Planned}
use dmlpact.Engine.Apply.Trail.{statements, statements-changes}

-- Everything that `apply_plan` checks before it connects, but the clock, passes for the text.
pub record IsReady (S : System) (options : PlanOptions) (plan : Plan) : Type 0 where
  pub hash : String
  pub verified : verified_plan_sha256 S plan ≡ ok hash
  pub limits_valid : validate_limits plan.limits ≡ ok tt
  pub text_moment : Trace
  pub raw : String
  pub text_read : S.read_to_string text_moment options.sql_path ≡ some raw
  pub analyzed : AnalyzedSql
  pub from_text : analyze_sql S raw ≡ ok analyzed
  pub bound : validate_plan_binding plan analyzed ≡ ok tt
  pub lifetime : plan.expires_at_unix_ms ≡ plan.created_at_unix_ms + options.lifetime_ms

module _ (S : System) (options : PlanOptions) where
  made-IsReady :
      (plan : Plan) (before after : Trace)
      → IsMade S options before after plan
      → IsReady S options plan
  unfolding draft_plan
  made-IsReady plan before after made = record {
    hash = made.hash;
    verified = made.verified;
    limits_valid = ap (λ (p : Plan). validate_limits p.limits) made.drafted ∙ made.limits_valid;
    text_moment = made.text_moment;
    raw = made.raw;
    text_read = made.text_read;
    analyzed = made.analyzed;
    from_text = made.from_text;
    bound =
        ap (λ p. validate_plan_binding p made.analyzed) made.drafted
        ∙ validate_plan_binding-draft_plan S options made.analyzed made.database made.gathered
            made.created_at (made.created_at + options.lifetime_ms) made.hash
            made.sound.within_budget;
    lifetime =
        ap (λ (p : Plan). p.expires_at_unix_ms) made.drafted
        ∙ ap (λ n. n + options.lifetime_ms)
            (sym (ap (λ (p : Plan). p.created_at_unix_ms) made.drafted));
  }

  -- A plan that `create_plan` returns passes the checks that `apply_plan` makes before it connects:
  -- its seal, its limits and its binding to the SQL text that it was made from; it expires its
  -- lifetime after its creation, and no statement was sent to make it.
  pub create_plan-IsReady :
      (t t' : Trace) (plan : Plan)
      → create_plan S options t ≡ (ok plan, t')
      → IsReady S options plan × (statements t' ≡ statements t)
  create_plan-IsReady t t' plan run =
      let made = subst (Planned S options (changes t)) run (create_plan-Planned S options t) in
      (
        made-IsReady plan (changes t) (changes t') made,
        sym (statements-changes t') ∙ ap statements made.in_order ∙ statements-changes t,
      )
