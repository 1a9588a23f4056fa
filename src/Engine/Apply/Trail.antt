-- ===== src/Engine/Apply/Trail.antt =====
-- The statements and the commits that a trace holds.
use dmlpact.Base.{ℕ, String, Bool, Option, ◌≡◌, refl, sym, ap, ◌∙◌, inl, inr, List, [], ◌∷◌}
use dmlpact.Error.{AppError, AppResult, ok, err}
use dmlpact.Model.{ReceiptState, ApplyResult}
use dmlpact.System.{System, Effect, Trace}
use dmlpact.System.Rules.{changes}
use dmlpact.Receipt.Journal.{ReceiptJournal}
use dmlpact.Engine.Apply.Outcome.{Finished}

-- The statements of a trace, and the outcomes of its commits, the latest first.
abbrev pub statements : Trace → List String
statements [] = []
statements (Effect.execute sql _ ∷ t) = sql ∷ statements t
statements (_ ∷ t) = statements t

abbrev pub commits : Trace → List Bool
commits [] = []
commits (Effect.commit b ∷ t) = b ∷ commits t
commits (_ ∷ t) = commits t

pub statements-changes : (t : Trace) → statements (changes t) ≡ statements t
statements-changes [] = refl
statements-changes (Effect.execute sql rows ∷ t) = ap (λ l. sql ∷ l) (statements-changes t)
statements-changes (_ ∷ t) = statements-changes t

pub commits-changes : (t : Trace) → commits (changes t) ≡ commits t
commits-changes [] = refl
commits-changes (Effect.commit b ∷ t) = ap (λ l. b ∷ l) (commits-changes t)
commits-changes (_ ∷ t) = commits-changes t

-- What the changes of a trace tell of its statements and commits.
statements_of : (t before : Trace) → changes t ≡ before → statements t ≡ statements before
statements_of t before e = sym (statements-changes t) ∙ ap statements e

commits_of : (t before : Trace) → changes t ≡ before → commits t ≡ commits before
commits_of t before e = sym (commits-changes t) ∙ ap commits e

-- The end of a receipt adds no statement and no commit to those before it.
pub Finished-statements :
    (S : System) (journal : ReceiptJournal) (state : ReceiptState) (rows : Option ℕ)
    (Q : AppError → Type 0) (before : Trace) (out : AppResult ApplyResult × Trace)
    → Finished S journal state rows Q before out
    → statements out.1 ≡ statements before
Finished-statements S journal state rows Q before (ok r, t) (_, _, _, (bytes, _, e)) =
    statements_of t _ e
Finished-statements S journal state rows Q before (err x, t) (_, inl e) = statements_of t _ e
Finished-statements S journal state rows Q before (err x, t) (_, inr (bytes, e)) =
    statements_of t _ e

pub Finished-commits :
    (S : System) (journal : ReceiptJournal) (state : ReceiptState) (rows : Option ℕ)
    (Q : AppError → Type 0) (before : Trace) (out : AppResult ApplyResult × Trace)
    → Finished S journal state rows Q before out
    → commits out.1 ≡ commits before
Finished-commits S journal state rows Q before (ok r, t) (_, _, _, (bytes, _, e)) = commits_of t _ e
Finished-commits S journal state rows Q before (err x, t) (_, inl e) = commits_of t _ e
Finished-commits S journal state rows Q before (err x, t) (_, inr (bytes, e)) = commits_of t _ e
