-- ===== src/Integrity/Clock.antt =====
-- The clock of src/integrity.rs.
use dmlpact.Base.{ℕ, ◌≡◌, ap, ◌∙◌, some}
use dmlpact.Error.{ok}
use dmlpact.Error.Pure.{ok-injective}
use dmlpact.System.{System, Effect, Trace}
use dmlpact.System.Monad.{pure, >>=-eq-ok}
use dmlpact.System.Rules.{asked_answer}
use dmlpact.Integrity.{unix_ms}

module _ (S : System) where
  -- The time that was read is the clock's.
  pub unix_ms-eq-ok :
      (t : Trace) {now : ℕ} {t' : Trace} → unix_ms S t ≡ (ok now, t') → S.now t ≡ some now
  unfolding unix_ms pure
  unix_ms-eq-ok t run =
      let (millis, t₁, answer, run₁) = >>=-eq-ok _ _ t run in
      let (_, t₂, _, run₂) = >>=-eq-ok _ _ t₁ run₁ in
      asked_answer Effect.read_clock S.now _ t answer ∙ ap some (ok-injective (ap (λ p. p.0) run₂))
