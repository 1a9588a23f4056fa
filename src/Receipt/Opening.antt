-- ===== src/Receipt/Opening.antt =====
-- What `create` leaves behind.
use dmlpact.Base.{ℕ, String, Bool, true, false, ◌≡◌, refl, ap, ◌∙◌, [], ◌∷◌, ◌⊎◌, inl, inr, some}
use dmlpact.Base.Text.{Bytes}
use dmlpact.Error.{AppResult, ok, err}
use dmlpact.Model.{Plan, ReceiptEvent}
use dmlpact.System.{System, Effect, Trace}
use dmlpact.System.Monad.{M, pure, ◌>>=◌}
use dmlpact.System.Rules.{
  changes, Reaches, IsQuiet, bind_rule, quiet_run, lift-IsQuiet, attempt-eq-ok, attempt-eq-err,
  lifted_answer,
}
use dmlpact.Integrity.Clock.{unix_ms-eq-ok}
use dmlpact.Receipt.Seal.{verified_plan_sha256, seal_event, prepared_event}
use dmlpact.Receipt.Journal.{ReceiptJournal, create, write_event}
use dmlpact.Receipt.Writing.{IsLine, Wrote, write_event-Wrote, unix_ms-IsQuiet}

-- Nothing, an attempt at a file, or a new file that is empty or whose writing or syncing failed. After
-- such a failure the file may hold any part of the bytes, or all of them.
abbrev pub Unopened : String → Trace → Trace → Type 0
Unopened path before after =
    (after ≡ before)
    ⊎ (after ≡ Effect.create_file path false ∷ before)
    ⊎ (after ≡ Effect.create_file path true ∷ before)
    ⊎ ((bytes : Bytes) × (after
          ≡ Effect.write_file path bytes false ∷ Effect.create_file path true ∷ before))

-- The event is a prepared event for a plan that passes its check, sealed at a time of the clock.
pub record IsPreparedFor (S : System) (plan : Plan) (file : String) (event : ReceiptEvent)
    : Type 0 where
  pub hash : String
  pub verified : verified_plan_sha256 S plan ≡ ok hash
  pub moment : Trace
  pub timestamp : ℕ
  pub clock_read : S.now moment ≡ some timestamp
  pub sealed : seal_event S (prepared_event S hash file timestamp) ≡ ok event

-- The same, where the bytes are the line of a prepared event.
abbrev pub Unfinished : System → String → Plan → String → Trace → Trace → Type 0
Unfinished S path plan file before after =
    (after ≡ before)
    ⊎ (after ≡ Effect.create_file path false ∷ before)
    ⊎ (after ≡ Effect.create_file path true ∷ before)
    ⊎ ((event : ReceiptEvent) × IsPreparedFor S plan file event
        × ((bytes : Bytes) × IsLine (S.event_json event) bytes
            × (after ≡ Effect.write_file path bytes false ∷ Effect.create_file path true ∷ before)))

pub Unfinished-Unopened :
    (S : System) (path : String) (plan : Plan) (file : String) (before after : Trace)
    → Unfinished S path plan file before after
    → Unopened path before after
Unfinished-Unopened S path plan file before after (inl u) = inl u
Unfinished-Unopened S path plan file before after (inr (inl u)) = inr (inl u)
Unfinished-Unopened S path plan file before after (inr (inr (inl u))) = inr (inr (inl u))
Unfinished-Unopened S path plan file before after (inr (inr (inr (_, _, (bytes, _, u))))) =
    inr (inr (inr (bytes, u)))

-- The prepared event was written to a new file and synced, or the opening stopped before that.
abbrev pub Opened :
    System → String → Plan → String → Trace → AppResult ReceiptJournal × Trace → Type 0
Opened S path plan file before (ok journal, t) =
    (journal.path ≡ path)
    × IsPreparedFor S plan file journal.prepared
    × ((bytes : Bytes) × IsLine (S.event_json journal.prepared) bytes
        × (changes t ≡ Effect.write_file path bytes true ∷ Effect.create_file path true ∷ before))
Opened S path plan file before (err e, t) = Unfinished S path plan file before (changes t)

pair-Opened :
    (S : System) (path : String) (plan : Plan) (file : String) (before : Trace)
    (journal : ReceiptJournal) (p : AppResult (Unit {0}) × Trace)
    → journal.path ≡ path
    → IsPreparedFor S plan file journal.prepared
    → Wrote (IsLine (S.event_json journal.prepared)) path (Effect.create_file path true ∷ before) p
    → Opened S path plan file before (◌>>=◌ (λ _. p) (λ _. pure journal) [])
unfolding ◌>>=◌ pure
pair-Opened S path plan file before journal (ok _, t) here prepared w = (here, prepared, w)
pair-Opened S path plan file before journal (err e, t) here prepared (inl w) = inr (inr (inl w))
pair-Opened S path plan file before journal (err e, t) here prepared (inr w) =
    inr (inr (inr (journal.prepared, prepared, w)))

-- Looking first does not matter.
quiet-Opened {ℓ} :
    (S : System) (path : String) (plan : Plan) (file : String) (before : Trace) {A : Type ℓ}
    (m : M A) (f : A → M ReceiptJournal) (t : Trace)
    → IsQuiet m
    → changes t ≡ before
    → ((a : A) (t' : Trace)
        → m t ≡ (ok a, t')
        → changes t' ≡ before
        → Reaches (Opened S path plan file before) (f a) t')
    → Reaches (Opened S path plan file before) (m >>= f) t
quiet-Opened S path plan file before m f t looks same rest =
    bind_rule m f t (λ e t' run. inl (quiet_run looks t run ∙ same))
      λ a t' run. rest a t' run (quiet_run looks t run ∙ same)

made :
    {path : String} {b : Bool} {before t t' : Trace}
    → t' ≡ Effect.create_file path b ∷ t
    → changes t ≡ before
    → changes t' ≡ Effect.create_file path b ∷ before
made {path} {b} now same = ap changes now ∙ ap (λ l. Effect.create_file path b ∷ l) same

written_after :
    (S : System) (path : String) (plan : Plan) (file : String) (before t : Trace)
    (prepared : ReceiptEvent)
    → IsPreparedFor S plan file prepared
    → changes t ≡ Effect.create_file path true ∷ before
    → Reaches
        (Opened S path plan file before)
        (write_event S path prepared >>= λ _. pure (record { path = path; prepared = prepared }))
        t
unfolding ◌>>=◌ pure
written_after S path plan file before t prepared for made = record {
  run =
      pair-Opened S path plan file before (record { path = path; prepared = prepared })
        (write_event S path prepared t) refl for (write_event-Wrote S path prepared _ t made).run;
}

-- A receipt that `create` opens holds a prepared event, sealed at a time of the clock for a plan that
-- passes its check and for this SQL file, whose line was written to a new file and synced; an error
-- leaves nothing, an attempt at a file, an empty new file, or a new file where the writing or the
-- syncing of the line of such an event failed.
pub create-Opened :
    (S : System) (path : String) (plan : Plan) (file : String) (t : Trace)
    → Reaches (Opened S path plan file (changes t)) (create S path plan file) t
unfolding create
create-Opened S path plan file t =
    quiet-Opened S path plan file (changes t) _ _ t (lift-IsQuiet _) refl λ hash t₁ run₁ same₁.
      quiet-Opened S path plan file (changes t) _ _ t₁ (unix_ms-IsQuiet S) same₁
        λ timestamp t₂ run₂ same₂.
          quiet-Opened S path plan file (changes t) _ _ t₂ (lift-IsQuiet _) same₂
            λ prepared t₃ run₃ same₃.
              bind_rule _ _ t₃ (λ e t₄ run₄. inr (inl (made (attempt-eq-err _ _ _ t₃ run₄) same₃)))
                λ _ t₄ run₄.
                  written_after S path plan file (changes t) t₄ prepared
                    (record {
                      hash = hash;
                      verified = lifted_answer (verified_plan_sha256 S plan) t run₁;
                      moment = t₁;
                      timestamp = timestamp;
                      clock_read = unix_ms-eq-ok S t₁ run₂;
                      sealed =
                          lifted_answer (seal_event S (prepared_event S hash file timestamp)) t₂
                            run₃;
                    })
                    (made (attempt-eq-ok _ _ _ t₃ run₄) same₃)
