-- ===== src/Engine/Limits.antt =====
-- The bounds in src/engine.rs: limits of a plan, its lifetime, and the server's version.
pub mod Bounds
use dmlpact.Base.{ℕ, ℤ, Bool, not, ◌||◌, ◌&&◌, ◌==◌, ltb, leb, ltb_ℤ}
use dmlpact.Error.{AppResult, ok, app_error, usage, policy}
use dmlpact.Error.Pure.{◌>>◌, refuse_if}
use dmlpact.Model.{Limits, DatabaseIdentity}

abbrev pub min_postgres_version_num : ℕ
min_postgres_version_num = 130_000

abbrev pub max_plan_lifetime_ms : ℕ
max_plan_lifetime_ms = 86_400_000

abbrev pub max_target_evidence_bytes : ℕ
max_target_evidence_bytes = 67_108_864

unfoldable pub validate_limits : Limits → AppResult (Unit {0})
validate_limits limits = do
  refuse_if (limits.max_rows == 0 || ltb 1_000_000 limits.max_rows)
      (app_error usage "max_rows_invalid" "max_rows must be between 1 and 1,000,000")
  refuse_if
      (not (leb 100 limits.statement_timeout_ms && leb limits.statement_timeout_ms 600_000)
        || not (leb 1 limits.lock_timeout_ms && leb limits.lock_timeout_ms 60_000)
        || ltb limits.statement_timeout_ms limits.lock_timeout_ms)
      (app_error usage "timeout_invalid"
        "statement timeout must be 100ms..10m and lock timeout 1ms..1m, not exceeding it")
  ok tt

-- The test on the lifetime at the start of `create_plan`.
unfoldable pub validate_lifetime : ℕ → AppResult (Unit {0})
validate_lifetime lifetime_ms = do
  refuse_if (lifetime_ms == 0 || ltb max_plan_lifetime_ms lifetime_ms) (
      app_error usage "plan_lifetime_invalid"
        "plan lifetime must be between 1 millisecond and 24 hours")
  ok tt

unfoldable pub enforce_postgres_version : DatabaseIdentity → AppResult (Unit {0})
enforce_postgres_version identity = do
  refuse_if (ltb_ℤ identity.server_version_num min_postgres_version_num)
      (app_error policy "postgres_version_unsupported" "PostgreSQL 13 or newer is required")
  ok tt
