-- ===== src/Engine/Planning/Gathering.antt =====
-- What the transaction of `create_plan` in src/engine.rs has checked, and what it changes.
use dmlpact.Base.{
  ℕ, ltb, String, ◌≤◌, true, false, ◌≡◌, refl, ap, ◌∙◌, ltb-eq-false, ◌∷◌, ◌⊎◌, inl, inr,
}
use dmlpact.Error.{AppError, AppResult, ok, err}
use dmlpact.Model.{DatabaseIdentity, TableEvidence}
use dmlpact.System.{System, Effect, Trace}
use dmlpact.System.Monad.{M, pure, lift, attempt, refuse_if, ◌>>=◌}
use dmlpact.System.Rules.{
  changes, Reaches, IsQuiet, bind_rule, quiet_rule, quiet_rules, lift-IsQuiet, attempt-IsQuiet,
  refuse_if-IsQuiet, attempt-eq-ok, attempt-eq-err, lifted_answer, refused_not,
}
use dmlpact.Db.Connect.{ConnectedDatabase}
use dmlpact.Db.Evidence.{database_identity, table_evidence, table_schema_sha256}
use dmlpact.Db.Policy.{enforce_table_policy}
use dmlpact.Db.Quiet.{
  database_identity-IsQuiet, table_evidence-IsQuiet, apply_local_timeouts-IsQuiet,
}
use dmlpact.Sql.Forms.{AnalyzedSql}
use dmlpact.Engine.Limits.{enforce_postgres_version}
use dmlpact.Engine.Target.{target_count, target_set_sha256}
use dmlpact.Engine.Quiet.{target_count-IsQuiet, target_set_sha256-IsQuiet}
use dmlpact.Engine.Planning.{PlanOptions, Gathered, gather, explain_sha256}

-- What the session said, and what has passed.
pub record IsSound (S : System) (options : PlanOptions) (analyzed : AnalyzedSql) (g : Gathered)
    : Type 0 where
  pub endpoint : String
  pub identity_moment : Trace
  pub identified : (database_identity S endpoint identity_moment).0 ≡ ok g.identity
  pub table_moment : Trace
  pub found : (table_evidence S analyzed.requested_table table_moment).0 ≡ ok g.evidence
  pub count_moment : Trace
  pub counted : (target_count S analyzed count_moment).0 ≡ ok g.target_count
  pub rows_moment : Trace
  pub rows_after : Trace
  pub hashed :
      target_set_sha256 S analyzed g.target_count rows_moment ≡ (ok g.target_set_sha256, rows_after)
  pub recent : enforce_postgres_version g.identity ≡ ok tt
  pub allowed :
      enforce_table_policy g.evidence analyzed.kind options.allow_triggers
        options.allow_row_security
      ≡ ok tt
  pub schema : table_schema_sha256 S g.evidence ≡ ok g.schema_hash
  pub within_budget : g.target_count ≤ options.limits.max_rows

-- The transaction was committed, or its commit failed, or nothing was changed.
abbrev pub Ends : System → PlanOptions → AnalyzedSql → Trace → AppResult Gathered × Trace → Type 0
Ends S options analyzed before (ok g, t) =
    IsSound S options analyzed g × (changes t ≡ Effect.commit true ∷ before)
Ends S options analyzed before (err e, t) =
    (changes t ≡ before) ⊎ (changes t ≡ Effect.commit false ∷ before)

-- The answer of a run.
answer_of :
    {A : Type 0} {run : AppResult A × Trace} {r : AppResult A} {t : Trace}
    → run ≡ (r, t)
    → run.0 ≡ r
answer_of e = ap (λ p. p.0) e

module _ (S : System) where
  explain_sha256-IsQuiet : (analyzed : AnalyzedSql) → IsQuiet (explain_sha256 S analyzed)
  unfolding explain_sha256
  explain_sha256-IsQuiet analyzed = search quiet_rules

  module _ (options : PlanOptions) (analyzed : AnalyzedSql) (database : ConnectedDatabase) where
    -- The facts of a run, one for each step that checks something.
    IsSound-run :
        (identity : DatabaseIdentity) (evidence : TableEvidence) (hash target_set explain : String)
        (count : ℕ) (error : AppError) (t₂ t₃ t₄ t₅ t₆ t₇ t₈ t₉ u₁ : Trace) {x y z : Unit {0}}
        → database_identity S database.endpoint_sha256 t₂ ≡ (ok identity, t₃)
        → lift (enforce_postgres_version identity) t₃ ≡ (ok x, t₄)
        → table_evidence S analyzed.requested_table t₄ ≡ (ok evidence, t₅)
        → lift
            (enforce_table_policy evidence analyzed.kind options.allow_triggers
              options.allow_row_security)
            t₅
          ≡ (ok y, t₆)
        → lift (table_schema_sha256 S evidence) t₆ ≡ (ok hash, t₇)
        → target_count S analyzed t₇ ≡ (ok count, t₈)
        → refuse_if (ltb options.limits.max_rows count) error t₈ ≡ (ok z, t₉)
        → target_set_sha256 S analyzed count t₉ ≡ (ok target_set, u₁)
        → IsSound S options analyzed (record {
          identity = identity;
          evidence = evidence;
          schema_hash = hash;
          target_count = count;
          target_set_sha256 = target_set;
          explain_sha256 = explain;
        })
    IsSound-run identity evidence hash target_set explain count error t₂ t₃ t₄ t₅ t₆ t₇ t₈ t₉ u₁
          identified recent found allowed schema counted within hashed =
        record {
          endpoint = database.endpoint_sha256;
          identity_moment = t₂;
          identified = answer_of identified;
          table_moment = t₄;
          found = answer_of found;
          count_moment = t₇;
          counted = answer_of counted;
          rows_moment = t₉;
          rows_after = u₁;
          hashed = hashed;
          recent = lifted_answer (enforce_postgres_version identity) t₃ recent;
          allowed =
              lifted_answer
                (enforce_table_policy evidence analyzed.kind options.allow_triggers
                  options.allow_row_security)
                t₅ allowed;
          schema = lifted_answer (table_schema_sha256 S evidence) t₆ schema;
          within_budget = ltb-eq-false _ _ (refused_not _ error t₈ within);
        }

    -- A step that only looks, before the commit.
    look_first {ℓ} :
        {A : Type ℓ} (before : Trace) (m : M A) (f : A → M Gathered) (t : Trace)
        → IsQuiet m
        → changes t ≡ before
        → ((a : A) (t' : Trace)
            → m t ≡ (ok a, t')
            → changes t' ≡ before
            → Reaches (Ends S options analyzed before) (f a) t')
        → Reaches (Ends S options analyzed before) (m >>= f) t
    look_first before m f t looks same rest = quiet_rule m f t looks same (λ e t' s. inl s) rest

    commit_last :
        (before : Trace) (error : AppError) (g : Gathered) (t : Trace)
        → IsSound S options analyzed g
        → changes t ≡ before
        → Reaches
            (Ends S options analyzed before)
            (attempt Effect.commit S.commit_transaction error >>= λ _. pure g)
            t
    unfolding pure
    commit_last before error g t sound same =
        bind_rule _ _ t
          (λ e t' run.
            inr (ap changes (attempt-eq-err _ _ _ t run) ∙ ap (λ l. Effect.commit false ∷ l) same))
          λ _ t' run. record {
            run = (
              sound,
              ap changes (attempt-eq-ok _ _ _ t run) ∙ ap (λ l. Effect.commit true ∷ l) same,
            );
          }

    pub gather-Ends :
        (before t : Trace)
        → changes t ≡ before
        → Reaches (Ends S options analyzed before) (gather S options analyzed database) t
    unfolding gather
    gather-Ends b t s = look_first b _ _ t (attempt-IsQuiet _ _ _ (λ o. refl)) s λ _ t₁ _ s₁.
        look_first b _ _ t₁ (apply_local_timeouts-IsQuiet S options.limits) s₁ λ _ t₂ _ s₂.
          look_first b _ _ t₂ (database_identity-IsQuiet S database.endpoint_sha256) s₂
            λ identity t₃ run₃ s₃. look_first b _ _ t₃ (lift-IsQuiet _) s₃ λ _ t₄ run₄ s₄.
              look_first b _ _ t₄ (table_evidence-IsQuiet S analyzed.requested_table) s₄
                λ evidence t₅ run₅ s₅. look_first b _ _ t₅ (lift-IsQuiet _) s₅ λ _ t₆ run₆ s₆.
                  look_first b _ _ t₆ (lift-IsQuiet _) s₆ λ hash t₇ run₇ s₇.
                    look_first b _ _ t₇ (target_count-IsQuiet S analyzed) s₇ λ count t₈ run₈ s₈.
                      look_first b _ _ t₈ (refuse_if-IsQuiet _ _) s₈ λ _ t₉ run₉ s₉.
                        look_first b _ _ t₉ (target_set_sha256-IsQuiet S analyzed count) s₉
                          λ target_set u₁ r₁ q₁.
                            look_first b _ _ u₁ (explain_sha256-IsQuiet analyzed) q₁
                              λ explain u₂ _ q₂.
                                commit_last b _ _ u₂
                                  (IsSound-run identity evidence hash target_set explain count _ t₂
                                    t₃ t₄ t₅ t₆ t₇ t₈ t₉ u₁ run₃ run₄ run₅ run₆ run₇ run₈ run₉ r₁)
                                  q₂
