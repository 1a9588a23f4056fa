-- ===== src/Engine/Target.antt =====
-- The evidence on the target rows in src/engine.rs: their number, and a hash of their contents.
pub mod Counted
pub mod Drift
pub mod Frames
use dmlpact.Base.{ℕ, ℤ, pos, negsuc, ◌+◌, ◌/◌, ◌%◌, ◌^◌, ◌==◌, not, ltb, String, Option, none, some}
use dmlpact.Base.{List, [], ◌∷◌, ◌++◌, length, if◌then◌else◌, len}
use dmlpact.Base.Text.{Bytes, as_bytes}
use dmlpact.Error.{AppResult, ok, err, app_error, contract, budget}
use dmlpact.System.{System, Effect}
use dmlpact.System.Monad.{M, ◌>>=◌, pure, lift, ask_or}
use dmlpact.Integrity.{sha256_bytes}
use dmlpact.Db.Names.{database_error}
use dmlpact.Db.Evidence.{saturating_add}
use dmlpact.Sql.Forms.{AnalyzedSql}
use dmlpact.Engine.Limits.{max_target_evidence_bytes}

-- `u64::to_be_bytes`.
unfoldable pub to_be_bytes : ℕ → Bytes
to_be_bytes n =
    (n / 2 ^ 56 % 256)
    ∷ (n / 2 ^ 48 % 256)
    ∷ (n / 2 ^ 40 % 256)
    ∷ (n / 2 ^ 32 % 256)
    ∷ (n / 2 ^ 24 % 256)
    ∷ (n / 2 ^ 16 % 256)
    ∷ (n / 2 ^ 8 % 256)
    ∷ (n % 256)
    ∷ []

-- `u64::try_from(count)`.
count_of_row : ℤ → AppResult ℕ
count_of_row (pos n) = ok n
count_of_row (negsuc _) =
    err (app_error contract "target_count_invalid" "PostgreSQL returned an invalid target count")

-- One turn of the loop: the buffer with the value behind its length, if it has room.
unfoldable pub append_value : Bytes → String → AppResult Bytes
unfolding saturating_add to_be_bytes as_bytes
append_value evidence value =
    if ltb max_target_evidence_bytes
      (saturating_add (saturating_add (length evidence) 8) (len value))
    then err (
        app_error budget "target_evidence_bytes_exceeded"
          "target evidence exceeds the fixed 64 MiB safety limit")
    else ok (evidence ++ (to_be_bytes (len value) ++ as_bytes value))

-- The loop over the rows, with the buffer and the number of rows so far. `none` is a row that could
-- not be fetched.
unfoldable pub collect_evidence : List (Option String) → Bytes → ℕ → AppResult (Bytes × ℕ)
unfolding append_value
collect_evidence [] evidence observed_count = ok (evidence, observed_count)
collect_evidence (none ∷ rows) evidence observed_count =
    err (database_error "target_evidence_query_failed")
collect_evidence (some value ∷ rows) evidence observed_count = elim (append_value evidence value) [
  | err e ↦ err e
  | ok buffer ↦ collect_evidence rows buffer (saturating_add observed_count 1)
]

module _ (S : System) where
  unfoldable pub target_count : AnalyzedSql → M ℕ
  unfolding count_of_row
  target_count analyzed = elim analyzed.count_sql [
    | none ↦ pure analyzed.inserted_rows
    | some query ↦
        ask_or (Effect.query query) (λ t. S.count_row t query)
          (database_error "target_count_failed")
        >>= λ count. lift (count_of_row count)
  ]

  -- The test on the number of rows, and the hash of the buffer.
  unfoldable pub check_evidence : ℕ → Bytes × ℕ → AppResult String
  unfolding sha256_bytes
  check_evidence expected_count (evidence, observed_count) =
      if not (observed_count == expected_count)
      then err (
          app_error contract "target_evidence_count_mismatch"
            "target evidence count does not match the pre-count in the same transaction")
      else ok (sha256_bytes S evidence)

  unfoldable pub target_set_sha256 : AnalyzedSql → ℕ → M String
  unfolding collect_evidence check_evidence sha256_bytes as_bytes
  target_set_sha256 analyzed expected_count = elim analyzed.target_rows_sql [
    | none ↦ pure (sha256_bytes S (as_bytes analyzed.normalized))
    | some query ↦
        ask_or (Effect.query query) (λ t. S.target_rows t query)
          (database_error "target_evidence_query_failed")
        >>= λ rows. lift (collect_evidence rows [] 0) >>= λ collected.
            lift (check_evidence expected_count collected)
  ]
