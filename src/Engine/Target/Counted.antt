-- ===== src/Engine/Target/Counted.antt =====
-- The hash of the target rows in src/engine.rs is taken over as many rows as were counted.
use dmlpact.Base.{
  ℕ, ◌+◌, ◌^◌, ◌<◌, String, Option, none, some, ◌≡◌, refl, ap, sym, ◌∙◌, List, [], ◌∷◌, length,
  arith,
}
use dmlpact.Base.{Bool, true, false, not, ◌==◌, ==_iff, subst, if◌then◌else◌}
use dmlpact.Base.Text.{Bytes}
use dmlpact.Error.{AppResult, ok, err, app_error, contract}
use dmlpact.Error.Pure.{ok-injective}
use dmlpact.System.{System, Effect, Trace}
use dmlpact.System.Monad.{lift, >>=-eq-ok}
use dmlpact.System.Rules.{lifted_answer, asked_answer}
use dmlpact.Integrity.{sha256_bytes}
use dmlpact.Db.Evidence.{saturating_add}
use dmlpact.Sql.Forms.{AnalyzedSql}
use dmlpact.Engine.Target.{append_value, collect_evidence, check_evidence, target_set_sha256}

one_more : (n k : ℕ) → n + (1 + k) < 2 ^ 64 → saturating_add n 1 ≡ n + 1
unfolding saturating_add
one_more n k small = ground arith

abbrev next : List (Option String) → ℕ → AppResult Bytes → AppResult (Bytes × ℕ)
next rows n (err e) = err e
next rows n (ok buffer) = collect_evidence rows buffer (saturating_add n 1)

went_on :
    (rows : List (Option String)) (r : AppResult Bytes) (n : ℕ) {out : Bytes × ℕ}
    → next rows n r ≡ ok out
    → (buffer : Bytes) × (collect_evidence rows buffer (saturating_add n 1) ≡ ok out)
went_on rows (err e) n run = cc
went_on rows (ok buffer) n run = (buffer, run)

-- A loop over the rows that succeeds has counted them all.
collected :
    (rows : List (Option String)) (evidence : Bytes) (n m : ℕ) (out : Bytes)
    → n + length rows < 2 ^ 64
    → collect_evidence rows evidence n ≡ ok (out, m)
    → m ≡ n + length rows
unfolding collect_evidence
collected [] evidence n m out small run =
    let e = sym (ap (λ (p : Bytes × ℕ). p.1) (ok-injective run)) in omega (arith, e)
collected (none ∷ rows) evidence n m out small run = cc
collected (some value ∷ rows) evidence n m out small run =
    let (buffer, rest) = went_on rows (append_value evidence value) n run in
    let e = one_more n (length rows) (omega (arith, small)) in
    let m_eq =
      collected rows buffer (n + 1) m out (omega (arith, small))
        (subst (λ k. collect_evidence rows buffer k ≡ ok (out, m)) e rest) in
    omega (arith, m_eq)

-- What the hash of the target rows was taken over.
pub record IsCounted (S : System) (moment : Trace) (query : String) (expected : ℕ) (hash : String)
    : Type 0 where
  pub rows : List (Option String)
  pub answered : S.target_rows moment query ≡ some rows
  pub evidence : Bytes
  pub gathered : collect_evidence rows [] 0 ≡ ok (evidence, expected)
  pub hashed : hash ≡ sha256_bytes S evidence
  pub all_rows : length rows < 2 ^ 64 → expected ≡ length rows

module _ (S : System) where
  checked :
      (expected observed : ℕ) (evidence : Bytes) (b : Bool) {hash : String}
      → (observed == expected) ≡ b
      → (if not b
          then err (
              app_error contract "target_evidence_count_mismatch"
                "target evidence count does not match the pre-count in the same transaction")
          else ok (sha256_bytes S evidence))
        ≡ ok hash
      → (observed ≡ expected) × (hash ≡ sha256_bytes S evidence)
  checked expected observed evidence true same h =
      ((==_iff observed expected).0 same, sym (ok-injective h))
  checked expected observed evidence false same h = cc

  pub target_set_sha256-IsCounted :
      (analyzed : AnalyzedSql) (query : String) (expected : ℕ) (hash : String) (t t' : Trace)
      → analyzed.target_rows_sql ≡ some query
      → target_set_sha256 S analyzed expected t ≡ (ok hash, t')
      → IsCounted S t query expected hash
  unfolding target_set_sha256 check_evidence
  target_set_sha256-IsCounted analyzed query expected hash t t' listed run =
      let run' = rw listed at run in
      let (rows, _, answer, run₁) = >>=-eq-ok _ _ t run' in
      let ((evidence, observed), _, gathered, run₂) =
        >>=-eq-ok (lift (collect_evidence rows [] 0)) _ _ run₁ in
      let all = lifted_answer (collect_evidence rows [] 0) _ gathered in
      let (same, hashed) =
        checked expected observed evidence (observed == expected) refl
          (lifted_answer (check_evidence S expected (evidence, observed)) _ run₂) in
      record {
        rows = rows;
        answered = asked_answer (Effect.query query) (λ u. S.target_rows u query) _ t answer;
        evidence = evidence;
        gathered = all ∙ ap (λ n. ok (evidence, n)) same;
        hashed = hashed;
        all_rows = λ small.
            let e = collected rows [] 0 observed evidence (omega (arith, small)) all in
            omega (arith, e, same);
      }
