-- ===== src/Engine/Planning/Making.antt =====
-- What `create_plan` of src/engine.rs makes, and what it changes.
use dmlpact.Base.{String, true, false, ◌≡◌, refl, sym, ap, ◌∙◌}
use dmlpact.Base.{subst, [], ◌∷◌, ◌⊎◌, inl, inr, Option, some}
use dmlpact.Base.Text.{Bytes}
use dmlpact.Error.{AppResult, ok, err}
use dmlpact.Model.{Plan}
use dmlpact.System.{System, Effect, Trace}
use dmlpact.System.Monad.{pure, lift, ◌>>=◌}
use dmlpact.System.Rules.{changes, Reaches, bind_rule, quiet_rule, lift-IsQuiet, lifted_answer}
use dmlpact.Integrity.{unix_ms}
use dmlpact.Integrity.Clock.{unix_ms-eq-ok}
use dmlpact.Sql.Forms.{AnalyzedSql}
use dmlpact.Sql.Document.{analyze_sql}
use dmlpact.Db.Connect.{ConnectedDatabase}
use dmlpact.Db.Quiet.{connect_database-IsQuiet}
use dmlpact.Receipt.Seal.{verified_plan_sha256, seal_plan}
use dmlpact.Receipt.Sealing.{seal_plan-eq-ok, verified_plan_sha256-eq-ok}
use dmlpact.Receipt.Opening.{Unopened}
use dmlpact.Receipt.PlanFile.{write_plan_new}
use dmlpact.Receipt.PlanWriting.{WrotePlan, write_plan_new-WrotePlan}
use dmlpact.Receipt.Writing.{IsLine, unix_ms-IsQuiet}
use dmlpact.Engine.Limits.{validate_limits, validate_lifetime}
use dmlpact.Engine.Quiet.{read_and_analyze-IsQuiet, read_and_analyze-eq-ok}
use dmlpact.Engine.Planning.{PlanOptions, Gathered, draft_plan, expiry, create_plan}
use dmlpact.Engine.Planning.Gathering.{IsSound, Ends, gather-Ends}
use dmlpact.Engine.Planning.Made.{IsMade, Planned, expiry-IsQuiet, expiry-eq-ok}

module _ (S : System) (options : PlanOptions) (before : Trace) where
  written :
      (plan : Plan) (p : AppResult (Unit {0}) × Trace)
      → WrotePlan S options.output_path plan (Effect.commit true ∷ before) p
      → ((hash : String)
          → verified_plan_sha256 S plan ≡ ok hash
          → (t : Trace) (bytes : Bytes) → IsLine (S.plan_json_pretty plan) bytes
          → changes t
            ≡ Effect.write_file options.output_path bytes true
              ∷ Effect.create_file options.output_path true
              ∷ Effect.commit true
              ∷ before
          → IsMade S options before (changes t) plan)
      → Planned S options before (◌>>=◌ (λ _. p) (λ _. pure plan) [])
  unfolding ◌>>=◌ pure
  written plan (ok _, t) ((hash, verified), (bytes, line, w)) made =
      made hash verified t bytes line w
  written plan (err e, t) w made = inr (inr w)

  -- The last two steps: the seal, and the file.
  sealed_and_written :
      (draft : Plan) (t : Trace)
      → changes t ≡ Effect.commit true ∷ before
      → ((plan : Plan) (hash : String) (t' : Trace) (bytes : Bytes)
          → plan ≡ record draft { plan_sha256 = some hash }
          → verified_plan_sha256 S plan ≡ ok hash
          → IsLine (S.plan_json_pretty plan) bytes
          → changes t'
            ≡ Effect.write_file options.output_path bytes true
              ∷ Effect.create_file options.output_path true
              ∷ Effect.commit true
              ∷ before
          → IsMade S options before (changes t') plan)
      → Reaches
          (Planned S options before)
          (lift (seal_plan S draft) >>= λ plan.
            write_plan_new S options.output_path plan >>= λ _. pure plan)
          t
  unfolding ◌>>=◌ pure
  sealed_and_written draft t same made =
      quiet_rule {before = Effect.commit true ∷ before} _ _ t (lift-IsQuiet _) same
        (λ e t' s. inr (inr (inl s)))
        λ plan t₁ run₁ s₁.
          let (h, e) = seal_plan-eq-ok S draft (lifted_answer (seal_plan S draft) t run₁) in
          record {
            run =
                written plan _
                  (write_plan_new-WrotePlan S options.output_path plan (Effect.commit true ∷ before)
                    t₁ s₁).run
                  λ hash verified t₂ bytes line w.
                    made plan hash t₂ bytes
                      (e
                        ∙ ap (λ (o : Option String). record draft { plan_sha256 = o })
                            (sym (ap (λ (p : Plan). p.plan_sha256) e)
                              ∙ (verified_plan_sha256-eq-ok S plan verified).0))
                      verified line w;
          }

  after_gather :
      (text_moment : Trace) (raw : String) (analyzed : AnalyzedSql) (database : ConnectedDatabase)
      (g : Gathered) (t : Trace)
      → validate_limits options.limits ≡ ok tt
      → validate_lifetime options.lifetime_ms ≡ ok tt
      → S.read_to_string text_moment options.sql_path ≡ some raw
      → analyze_sql S raw ≡ ok analyzed
      → IsSound S options analyzed g
      → changes t ≡ Effect.commit true ∷ before
      → Reaches
          (Planned S options before)
          (unix_ms S >>= λ created_at. expiry S created_at options.lifetime_ms >>= λ expires_at.
            lift (seal_plan S (draft_plan S options analyzed database g created_at expires_at))
            >>= λ plan. write_plan_new S options.output_path plan >>= λ _. pure plan)
          t
  after_gather text_moment raw analyzed database g t limits lifetime text_read from_text sound
        same =
      quiet_rule {before = Effect.commit true ∷ before} _ _ t (unix_ms-IsQuiet S) same
        (λ e t' s. inr (inr (inl s)))
        λ created_at t₁ run₁ s₁.
          quiet_rule {before = Effect.commit true ∷ before} _ _ t₁
            (expiry-IsQuiet S created_at options.lifetime_ms) s₁ (λ e t' s. inr (inr (inl s)))
            λ expires_at t₂ run₂ s₂.
              sealed_and_written (draft_plan S options analyzed database g created_at expires_at) t₂
                s₂
                λ plan hash t₃ bytes e verified line w. record {
                  limits_valid = limits;
                  lifetime_valid = lifetime;
                  text_moment = text_moment;
                  raw = raw;
                  text_read = text_read;
                  analyzed = analyzed;
                  from_text = from_text;
                  database = database;
                  gathered = g;
                  sound = sound;
                  clock_moment = t;
                  created_at = created_at;
                  clock_read = unix_ms-eq-ok S t run₁;
                  hash = hash;
                  drafted =
                      e
                      ∙ ap
                          (λ x. record (draft_plan S options analyzed database g created_at x) {
                            plan_sha256 = some hash;
                          })
                          (expiry-eq-ok S created_at options.lifetime_ms expires_at t₁ t₂ run₂);
                  verified = verified;
                  bytes = bytes;
                  line = line;
                  in_order = w;
                }

  not_gathered :
      {after : Trace}
      → (after ≡ before) ⊎ (after ≡ Effect.commit false ∷ before)
      → (after ≡ before)
        ⊎ (after ≡ Effect.commit false ∷ before)
        ⊎ Unopened options.output_path (Effect.commit true ∷ before) after
  not_gathered (inl s) = inl s
  not_gathered (inr s) = inr (inl s)

  create_plan-Ends :
      (t : Trace)
      → changes t ≡ before
      → Reaches (Planned S options before) (create_plan S options) t
  unfolding create_plan
  create_plan-Ends t same =
      quiet_rule _ _ t (lift-IsQuiet _) same (λ e t' s. inl s)
        λ _ t₁ run₁ s₁.
          quiet_rule _ _ t₁ (lift-IsQuiet _) s₁ (λ e t' s. inl s)
            λ _ t₂ run₂ s₂.
              quiet_rule _ _ t₂ (read_and_analyze-IsQuiet S options.sql_path) s₂ (λ e t' s. inl s)
                λ analyzed t₃ run₃ s₃.
                  quiet_rule _ _ t₃
                    (connect_database-IsQuiet S options.database.environment_name
                      options.database.allow_insecure_localhost)
                    s₃ (λ e t' s. inl s)
                    λ database t₄ run₄ s₄.
                      let (text_moment, raw, text_read, from_text) =
                        read_and_analyze-eq-ok S options.sql_path t₂ run₃ in
                      bind_rule _ _ t₄
                        (λ e t₅ run₅. not_gathered (
                          subst (Ends S options analyzed before) run₅
                            (gather-Ends S options analyzed database before t₄ s₄).run))
                        λ g t₅ run₅.
                          let (sound, s₅) =
                            subst (Ends S options analyzed before) run₅
                              (gather-Ends S options analyzed database before t₄ s₄).run in
                          after_gather text_moment raw analyzed database g t₅
                            (lifted_answer (validate_limits options.limits) t run₁)
                            (lifted_answer (validate_lifetime options.lifetime_ms) t₁ run₂)
                            text_read from_text sound s₅

-- A plan that `create_plan` returns comes from the SQL text that it read, the time of the clock and
-- checked evidence, it passes its own check, and its changes are the commit of the reading
-- transaction, a new file and a write of the plan's line to it, whole and synced; an error leaves at
-- most a commit, tried or done, and a file that is empty or whose writing or syncing failed.
pub create_plan-Planned :
    (S : System) (options : PlanOptions) (t : Trace)
    → Planned S options (changes t) (create_plan S options t)
create_plan-Planned S options t = (create_plan-Ends S options (changes t) t refl).run
