-- ===== src/Receipt/Writing.antt =====
-- What the writing of an event leaves behind, on every path of src/receipt.rs.
use dmlpact.Base.{
  ℕ, String, Bool, true, false, ◌≡◌, ap, ◌∙◌, ◌⊎◌, inl, inr, [], ◌∷◌, ◌++◌, Option, some, refl,
  not-eq-false,
}
use dmlpact.Base.Text.{Bytes, as_bytes}
use dmlpact.Error.{AppError, AppResult, ok, err}
use dmlpact.Error.Pure.{ok_or-eq-ok}
use dmlpact.Model.{ReceiptState, ReceiptResult, ReceiptEvent, is_final}
use dmlpact.System.{System, Effect, Trace}
use dmlpact.System.Monad.{M, pure, attempt, ◌>>=◌}
use dmlpact.System.Rules.{
  changes, IsQuiet, Reaches, bind_rule, quiet_run, refuse_if-IsQuiet, lift-IsQuiet, quiet_rules,
  lifted_answer, refused_not,
}
use dmlpact.Integrity.{unix_ms}
use dmlpact.Integrity.Clock.{unix_ms-eq-ok}
use dmlpact.Receipt.Seal.{final_event, seal_event}
use dmlpact.Receipt.Journal.{ReceiptJournal, write_event, finalize}

-- The bytes are the line of a serialisation: its text and a line feed.
pub record IsLine (serialisation : Option String) (bytes : Bytes) : Type 0 where
  pub text : String
  pub serialised : serialisation ≡ some text
  pub spelled : bytes ≡ as_bytes text ++ (10 ∷ [])

-- The bytes are the line of a terminal event, sealed at a time of the clock.
pub record IsFinalLine (S : System) (prepared : ReceiptEvent) (state : ReceiptState)
    (result : ReceiptResult) (bytes : Bytes) : Type 0 where
  pub terminal : is_final state ≡ true
  pub moment : Trace
  pub timestamp : ℕ
  pub clock_read : S.now moment ≡ some timestamp
  pub event : ReceiptEvent
  pub sealed : seal_event S (final_event S prepared timestamp state result) ≡ ok event
  pub line : IsLine (S.event_json event) bytes

-- Bytes of this kind were written and synced, or the error came with at most a failure to write or to
-- sync such bytes.
abbrev pub Wrote {ℓ} :
    {A : Type ℓ} → (Bytes → Type 0) → String → Trace → AppResult A × Trace → Type 0
Wrote P path before (ok _, t) =
    (bytes : Bytes) × P bytes × (changes t ≡ Effect.write_file path bytes true ∷ before)
Wrote P path before (err e, t) =
    (changes t ≡ before)
    ⊎ ((bytes : Bytes) × P bytes × (changes t ≡ Effect.write_file path bytes false ∷ before))

module _ (P : Bytes → Type 0) (path : String) (before : Trace) where
  write_run :
      (bytes : Bytes) (error : AppError) (t : Trace) (b : Bool)
      → P bytes
      → changes t ≡ before
      → Wrote P path before (attempt (Effect.write_file path bytes) (λ _. b) error t)
  unfolding attempt
  write_run bytes error t true p same =
      (bytes, p, ap (λ b. Effect.write_file path bytes true ∷ b) same)
  write_run bytes error t false p same =
      inr (bytes, p, ap (λ b. Effect.write_file path bytes false ∷ b) same)

  pub write-Wrote :
      (bytes : Bytes) (answer : Trace → Bool) (error : AppError) (t : Trace)
      → P bytes
      → changes t ≡ before
      → Reaches (Wrote P path before) (attempt (Effect.write_file path bytes) answer error) t
  unfolding attempt
  write-Wrote bytes answer error t p same = record {
    run = write_run bytes error t (answer t) p same;
  }

  written_pair {ℓ κ} :
      {A : Type ℓ} {B : Type κ} (Q : Bytes → Type 0) (b : B) (p : AppResult A × Trace)
      → ((bytes : Bytes) → P bytes → Q bytes)
      → Wrote P path before p
      → Wrote Q path before (◌>>=◌ (λ _. p) (λ _. pure b) [])
  unfolding ◌>>=◌ pure
  written_pair Q b (ok a, t) is (bytes, p, w) = (bytes, is bytes p, w)
  written_pair Q b (err e, t) is (inl w) = inl w
  written_pair Q b (err e, t) is (inr (bytes, p, w)) = inr (bytes, is bytes p, w)

  -- A value that is returned after the writing.
  pub written-pure {ℓ κ} :
      {A : Type ℓ} {B : Type κ} (Q : Bytes → Type 0) (m : M A) (b : B) (t : Trace)
      → ((bytes : Bytes) → P bytes → Q bytes)
      → Reaches (Wrote P path before) m t
      → Reaches (Wrote Q path before) (m >>= λ _. pure b) t
  unfolding ◌>>=◌ pure
  written-pure Q m b t is w = record { run = written_pair Q b (m t) is w.run }

  -- Looking first does not matter.
  pub quiet-Wrote {ℓ κ} :
      {A : Type ℓ} {B : Type κ} (m : M A) (f : A → M B) (t : Trace)
      → IsQuiet m
      → changes t ≡ before
      → ((a : A) (t' : Trace)
          → m t ≡ (ok a, t')
          → changes t' ≡ before
          → Reaches (Wrote P path before) (f a) t')
      → Reaches (Wrote P path before) (m >>= f) t
  quiet-Wrote m f t looks same rest =
      bind_rule m f t (λ e t' run. inl (quiet_run looks t run ∙ same))
        λ a t' run. rest a t' run (quiet_run looks t run ∙ same)

module _ (S : System) where
  pub unix_ms-IsQuiet : IsQuiet (unix_ms S)
  unfolding unix_ms
  unix_ms-IsQuiet = search quiet_rules

  pub write_event-Wrote :
      (path : String) (event : ReceiptEvent) (before t : Trace)
      → changes t ≡ before
      → Reaches (Wrote (IsLine (S.event_json event)) path before) (write_event S path event) t
  unfolding write_event
  write_event-Wrote path event before t same =
      quiet-Wrote (IsLine (S.event_json event)) path before _ _ t (lift-IsQuiet _) same
        λ text t₁ run₁ same₁.
          write-Wrote (IsLine (S.event_json event)) path before _ _ _ t₁
            (record {
              text = text;
              serialised = ok_or-eq-ok _ _ (lifted_answer _ t run₁);
              spelled = refl;
            })
            same₁

  pub finalize-Wrote :
      (journal : ReceiptJournal) (state : ReceiptState) (result : ReceiptResult) (before t : Trace)
      → changes t ≡ before
      → Reaches
          (Wrote (IsFinalLine S journal.prepared state result) journal.path before)
          (finalize S journal state result)
          t
  unfolding finalize
  finalize-Wrote journal state result before t same =
      let Q = IsFinalLine S journal.prepared state result in
      quiet-Wrote Q journal.path before _ _ t (refuse_if-IsQuiet _ _) same λ _ t₁ run₁ s₁.
        quiet-Wrote Q journal.path before _ _ t₁ unix_ms-IsQuiet s₁ λ timestamp t₂ run₂ s₂.
          quiet-Wrote Q journal.path before _ _ t₂ (lift-IsQuiet _) s₂ λ event t₃ run₃ s₃.
            written-pure (IsLine (S.event_json event)) journal.path before Q _ event t₃
              (λ bytes line. record {
                terminal = not-eq-false _ (refused_not _ _ t run₁);
                moment = t₁;
                timestamp = timestamp;
                clock_read = unix_ms-eq-ok S t₁ run₂;
                event = event;
                sealed =
                    lifted_answer
                      (seal_event S (final_event S journal.prepared timestamp state result)) t₂
                      run₃;
                line = line;
              })
              (write_event-Wrote journal.path event before t₃ s₃)
