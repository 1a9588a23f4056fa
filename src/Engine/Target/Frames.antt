-- ===== src/Engine/Target/Frames.antt =====
-- The evidence buffer of `target_set_sha256` in src/engine.rs: every value behind its length, in at
-- most 64 MiB, so that the buffer tells the values.
use dmlpact.Base.{
  ℕ, ◌+◌, ◌≤◌, String, Option, none, some, ◌≡◌, refl, ap, sym, ◌∙◌, subst, List, [], ◌∷◌, ◌++◌, map,
  length, length-append, len, arith,
}
use mathlib.Core.List.{append_assoc, append-nil}
use dmlpact.Base.Text.{Bytes, as_bytes}
use dmlpact.Base.Text.Utf8.{as_bytes-injective, length-as_bytes}
use dmlpact.Error.{AppResult, ok, err}
use dmlpact.Error.Pure.{ok-injective}
use dmlpact.Db.Evidence.{saturating_add}
use dmlpact.Engine.Limits.{max_target_evidence_bytes}
use dmlpact.Engine.Target.{to_be_bytes, append_value, collect_evidence}

-- The values, each behind its length.
abbrev pub frames : List String → Bytes
frames [] = []
frames (value ∷ values) = to_be_bytes (len value) ++ (as_bytes value ++ frames values)

-- Values that are short enough for their lengths.
abbrev pub AreShort : List String → Type 0
AreShort [] = Unit
AreShort (value ∷ values) = (len value ≤ max_target_evidence_bytes) × AreShort values

-- What the loop leaves: the frames of all rows, behind what was there, within the bound.
pub record IsFramed (rows : List (Option String)) (before out : Bytes) : Type 0 where
  pub values : List String
  pub all_fetched : rows ≡ map some values
  pub spelled : out ≡ before ++ frames values
  pub short : AreShort values
  pub within : length out ≤ max_target_evidence_bytes

length-to_be_bytes : (n : ℕ) → length (to_be_bytes n) ≡ 8
unfolding to_be_bytes
length-to_be_bytes n = refl

-- A value that was appended fits.
appended :
    (evidence : Bytes) (value : String) (out : Bytes)
    → append_value evidence value ≡ ok out
    → (out ≡ evidence ++ (to_be_bytes (len value) ++ as_bytes value))
      × (length evidence + 8 + len value ≤ max_target_evidence_bytes)
unfolding append_value saturating_add
appended evidence value out run = ground arith

abbrev next : List (Option String) → ℕ → AppResult Bytes → AppResult (Bytes × ℕ)
next rows n (err e) = err e
next rows n (ok buffer) = collect_evidence rows buffer (saturating_add n 1)

went_on :
    (rows : List (Option String)) (r : AppResult Bytes) (n : ℕ) {out : Bytes × ℕ}
    → next rows n r ≡ ok out
    → (buffer : Bytes) × (r ≡ ok buffer)
      × (collect_evidence rows buffer (saturating_add n 1) ≡ ok out)
went_on rows (err e) n run = cc
went_on rows (ok buffer) n run = (buffer, refl, run)

one_frame :
    (rows : List (Option String)) (value : String) (before buffer out : Bytes)
    → buffer ≡ before ++ (to_be_bytes (len value) ++ as_bytes value)
    → len value ≤ max_target_evidence_bytes
    → IsFramed rows buffer out
    → IsFramed (some value ∷ rows) before out
one_frame rows value before buffer out appended short rest = record {
  values = value ∷ rest.values;
  all_fetched = ap (λ l. some value ∷ l) rest.all_fetched;
  spelled =
      rest.spelled
      ∙ ap (λ b. b ++ frames rest.values) appended
      ∙ append_assoc before (to_be_bytes (len value) ++ as_bytes value) (frames rest.values)
      ∙ ap (λ b. before ++ b)
          (append_assoc (to_be_bytes (len value)) (as_bytes value) (frames rest.values));
  short = (short, rest.short);
  within = rest.within;
}

-- A loop that ends well has put every row into the buffer, behind what was there, and the buffer has
-- at most 64 MiB.
pub collect_evidence-IsFramed :
    (rows : List (Option String)) (before : Bytes) (n m : ℕ) (out : Bytes)
    → length before ≤ max_target_evidence_bytes
    → collect_evidence rows before n ≡ ok (out, m)
    → IsFramed rows before out
unfolding collect_evidence
collect_evidence-IsFramed [] before n m out fits run =
    let same = ap (λ (p : Bytes × ℕ). p.0) (ok-injective run) in
    record {
      values = [];
      all_fetched = refl;
      spelled = sym same ∙ sym (append-nil before);
      short = tt;
      within = subst (λ b. length b ≤ max_target_evidence_bytes) same fits;
    }
collect_evidence-IsFramed (none ∷ rows) before n m out fits run = cc
collect_evidence-IsFramed (some value ∷ rows) before n m out fits run =
    let (buffer, added, rest) = went_on rows (append_value before value) n run in
    let (spelled, room) = appended before value buffer added in
    one_frame rows value before buffer out spelled (omega (arith, room)) (
      collect_evidence-IsFramed rows buffer (saturating_add n 1) m out
        (omega (
          arith,
          room,
          ap length spelled,
          length-append before (to_be_bytes (len value) ++ as_bytes value),
          length-append (to_be_bytes (len value)) (as_bytes value),
          length-to_be_bytes (len value),
          length-as_bytes value,
        ))
        rest)

to_be_bytes-injective :
    (a b : ℕ) (xs ys : Bytes)
    → a ≤ max_target_evidence_bytes
    → b ≤ max_target_evidence_bytes
    → to_be_bytes a ++ xs ≡ to_be_bytes b ++ ys
    → (a ≡ b) × (xs ≡ ys)
unfolding to_be_bytes
to_be_bytes-injective a b xs ys small small' same = ground arith

same_length :
    (xs ys zs ws : Bytes) → length xs ≡ length ys → xs ++ zs ≡ ys ++ ws → (xs ≡ ys) × (zs ≡ ws)
same_length [] [] zs ws e same = (refl, same)
same_length [] (y ∷ ys) zs ws e same = absurd (omega (arith, e))
same_length (x ∷ xs) [] zs ws e same = absurd (omega (arith, e))
same_length (x ∷ xs) (y ∷ ys) zs ws e same = ground (arith, same_length xs ys zs ws)

nonempty : (n : ℕ) (xs : Bytes) → to_be_bytes n ++ xs ≡ [] → ⊥
unfolding to_be_bytes
nonempty n xs e = cc

-- The frames tell the values.
pub frames-injective :
    (values others : List String)
    → AreShort values
    → AreShort others
    → frames values ≡ frames others
    → values ≡ others
frames-injective [] [] short short' same = refl
frames-injective [] (w ∷ ws) short short' same =
    absurd (nonempty (len w) (as_bytes w ++ frames ws) (sym same))
frames-injective (v ∷ vs) [] short short' same =
    absurd (nonempty (len v) (as_bytes v ++ frames vs) same)
frames-injective (v ∷ vs) (w ∷ ws) (short, shorts) (short', shorts') same =
    let (lengths, rest) =
      to_be_bytes-injective (len v) (len w) (as_bytes v ++ frames vs) (as_bytes w ++ frames ws)
        short short' same in
    let (bytes, others) =
      same_length (as_bytes v) (as_bytes w) (frames vs) (frames ws)
        (length-as_bytes v ∙ lengths ∙ sym (length-as_bytes w)) rest in
    λ i. as_bytes-injective v w bytes i ∷ frames-injective vs ws shorts shorts' others i
