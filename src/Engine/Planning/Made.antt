-- ===== src/Engine/Planning/Made.antt =====
-- What a plan is made of in src/engine.rs: the record of a run of `create_plan`, and the expiry and the
-- binding of the draft.
use dmlpact.Base.{ℕ, ◌+◌, ◌≤◌, String, true, false, ◌≡◌, refl}
use dmlpact.Base.{◌∷◌, ◌⊎◌, some, text_eq_self, not_lt→ltb, arith}
use dmlpact.Base.Text.{Bytes}
use dmlpact.Error.{AppResult, ok, err}
use dmlpact.Model.{Plan, same_self, StatementKind-discrete, Text_option-discrete}
use dmlpact.System.{System, Effect, Trace}
use dmlpact.System.Monad.{pure, >>=-eq-ok}
use dmlpact.System.Rules.{changes, IsQuiet, quiet_rules}
use dmlpact.Sql.Forms.{AnalyzedSql}
use dmlpact.Sql.Document.{analyze_sql}
use dmlpact.Db.Connect.{ConnectedDatabase}
use dmlpact.Receipt.Seal.{verified_plan_sha256}
use dmlpact.Receipt.Opening.{Unopened}
use dmlpact.Receipt.Writing.{IsLine}
use dmlpact.Engine.Limits.{validate_limits, validate_lifetime}
use dmlpact.Engine.Binding.{sql_mismatch, validate_plan_binding}
use dmlpact.Engine.Planning.{PlanOptions, Gathered, draft_plan, expiry}
use dmlpact.Engine.Planning.Gathering.{IsSound}

-- A plan, where it comes from and what was changed for it.
pub record IsMade (S : System) (options : PlanOptions) (before after : Trace) (plan : Plan)
    : Type 0 where
  pub limits_valid : validate_limits options.limits ≡ ok tt
  pub lifetime_valid : validate_lifetime options.lifetime_ms ≡ ok tt
  pub text_moment : Trace
  pub raw : String
  pub text_read : S.read_to_string text_moment options.sql_path ≡ some raw
  pub analyzed : AnalyzedSql
  pub from_text : analyze_sql S raw ≡ ok analyzed
  pub database : ConnectedDatabase
  pub gathered : Gathered
  pub sound : IsSound S options analyzed gathered
  pub clock_moment : Trace
  pub created_at : ℕ
  pub clock_read : S.now clock_moment ≡ some created_at
  pub hash : String
  pub drafted :
      plan
      ≡ record (draft_plan S options analyzed database gathered created_at
          (created_at + options.lifetime_ms)) { plan_sha256 = some hash }
  pub verified : verified_plan_sha256 S plan ≡ ok hash
  pub bytes : Bytes
  pub line : IsLine (S.plan_json_pretty plan) bytes
  pub in_order :
      after
      ≡ Effect.write_file options.output_path bytes true
        ∷ Effect.create_file options.output_path true
        ∷ Effect.commit true
        ∷ before

-- Without a plan: nothing was changed, or the commit of the reading transaction failed, or the file
-- is missing, or empty, or its writing failed.
abbrev pub Planned : System → PlanOptions → Trace → AppResult Plan × Trace → Type 0
Planned S options before (ok plan, t) = IsMade S options before (changes t) plan
Planned S options before (err e, t) =
    (changes t ≡ before)
    ⊎ (changes t ≡ Effect.commit false ∷ before)
    ⊎ Unopened options.output_path (Effect.commit true ∷ before) (changes t)

pub expiry-IsQuiet :
    (S : System) (created_at lifetime_ms : ℕ) → IsQuiet (expiry S created_at lifetime_ms)
unfolding expiry
expiry-IsQuiet S created_at lifetime_ms = search quiet_rules

-- An expiry is the sum.
pub expiry-eq-ok :
    (S : System) (created_at lifetime_ms expires_at : ℕ) (t t' : Trace)
    → expiry S created_at lifetime_ms t ≡ (ok expires_at, t')
    → expires_at ≡ created_at + lifetime_ms
unfolding expiry pure
expiry-eq-ok S created_at lifetime_ms expires_at t t' run =
    let (_, _, _, run₁) = >>=-eq-ok _ _ t run in ground arith

module _ (S : System) (options : PlanOptions) (analyzed : AnalyzedSql)
    (database : ConnectedDatabase) (g : Gathered) (created_at expires_at : ℕ) (hash : String) where
  abbrev sealed : Plan
  sealed = record (draft_plan S options analyzed database g created_at expires_at) {
    plan_sha256 = some hash;
  }

  -- A sealed draft is bound to the SQL text that it was made for, if it is within its budget.
  pub validate_plan_binding-draft_plan :
      g.target_count ≤ options.limits.max_rows → validate_plan_binding sealed analyzed ≡ ok tt
  unfolding draft_plan validate_plan_binding sql_mismatch
  validate_plan_binding-draft_plan within =
      rw
        (
          same_self StatementKind-discrete analyzed.kind,
          same_self Text_option-discrete analyzed.count_query_sha256,
          same_self Text_option-discrete analyzed.target_query_sha256,
          text_eq_self analyzed.requested_table,
          text_eq_self analyzed.sql_file_sha256,
          text_eq_self analyzed.normalized_sql_sha256,
          not_lt→ltb _ _ within,
        )
        refl
