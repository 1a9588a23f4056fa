-- ===== src/Base/Text/Lines.antt =====
-- `str::lines` of lines that were written one after the other.
use Prim.Native.Char.{Char, char, code}
use Prim.Native.Nat.{ℕ}
use Prim.Native.String.append
use Prim.Native.String.{String, ◌++◌ as ◌<>◌}
use mathlib.Core.Path.{◌≡◌, refl, ap, sym, ◌∙◌}
use mathlib.Core.Logic.{◌≢◌, inl, inr}
use mathlib.Core.Bool.{true, false}
use mathlib.Core.List.{[], ◌∷◌, ◌++◌, append_assoc}
use dmlpact.Base.Tests.{◌==◌, if◌then◌else◌, Bool-cases, ==_iff}
use dmlpact.Base.Text.{
  as_bytes, encode_utf8, strip_return, push_front, split_lines, strip_returns, strip_all_but_last,
  ends_in_newline, lines,
}
use dmlpact.Base.Text.Utf8.{as_bytes-append, as_bytes-injective}

-- No line feed and no carriage return.
abbrev pub HasNoBreak : String → Type 0
HasNoBreak String.[] = Unit
HasNoBreak (String.◌∷◌ c s) = (code c ≢ 10) × (code c ≢ 13) × HasNoBreak s

-- The line and its line feed, in front of a text.
abbrev pub line_then : String → String → String
line_then line s = line <> String.◌∷◌ (char 10 tt) s

other_code : (c : Char) (n : ℕ) → code c ≢ n → (code c == n) ≡ false
other_code c n ne = elim (Bool-cases (code c == n)) [
  | inl e ↦ absurd (ne ((==_iff _ _).0 e))
  | inr e ↦ e
]

split_lines-line_then :
    (line s : String) → HasNoBreak line → split_lines (line_then line s) ≡ line ∷ split_lines s
unfolding split_lines push_front
split_lines-line_then String.[] s no_break = ap split_lines (append.nil (String.◌∷◌ (char 10 tt) s))
split_lines-line_then (String.◌∷◌ c line) s (no_feed, _, no_break) =
    ap split_lines (append.cons c line _)
    ∙ ap
        (λ b.
          if b
          then "" ∷ split_lines (line_then line s)
          else push_front c (split_lines (line_then line s)))
        (other_code c 10 no_feed)
    ∙ ap (push_front c) (split_lines-line_then line s no_break)

strip_return-line : (line : String) → HasNoBreak line → strip_return line ≡ line
unfolding strip_return
strip_return-line String.[] no_break = refl
strip_return-line (String.◌∷◌ c String.[]) (_, no_return, _) =
    ap (λ b. if b then "" else String.◌∷◌ c "") (other_code c 13 no_return)
strip_return-line (String.◌∷◌ c (String.◌∷◌ d s)) (_, _, no_break) =
    ap (String.◌∷◌ c) (strip_return-line (String.◌∷◌ d s) no_break)

ends_in_newline-cons :
    (c : Char) (s : String) → ends_in_newline s ≡ true → ends_in_newline (String.◌∷◌ c s) ≡ true
unfolding ends_in_newline
ends_in_newline-cons c String.[] h = cc
ends_in_newline-cons c (String.◌∷◌ d s) h = h

ends_in_newline-append :
    (line s : String) → ends_in_newline s ≡ true → ends_in_newline (line <> s) ≡ true
ends_in_newline-append String.[] s h = ap ends_in_newline (append.nil s) ∙ h
ends_in_newline-append (String.◌∷◌ c line) s h =
    ap ends_in_newline (append.cons c line s)
    ∙ ends_in_newline-cons c (line <> s) (ends_in_newline-append line s h)

last_feed : ends_in_newline (String.◌∷◌ (char 10 tt) "") ≡ true
unfolding ends_in_newline
last_feed = refl

-- A text of two lines has these two lines.
pub lines-line_then :
    (first second : String)
    → HasNoBreak first
    → HasNoBreak second
    → lines (line_then first (line_then second "")) ≡ first ∷ second ∷ []
unfolding lines strip_returns split_lines
lines-line_then first second no_break no_break' =
    let both = line_then first (line_then second "") in
    let feed = String.◌∷◌ (char 10 tt) "" in
    ap (λ b. if b then strip_returns (split_lines both) else strip_all_but_last (split_lines both))
      (ends_in_newline-append first (String.◌∷◌ (char 10 tt) (line_then second "")) (
        ends_in_newline-cons (char 10 tt) (line_then second "")
          (ends_in_newline-append second feed last_feed)))
    ∙ ap strip_returns (
        split_lines-line_then first (line_then second "") no_break
        ∙ ap (λ l. first ∷ l) (split_lines-line_then second "" no_break'))
    ∙ (λ i. strip_return-line first no_break i ∷ strip_return-line second no_break' i ∷ [])

-- Its bytes are those of the lines, each with its line feed.
pub as_bytes-line_then :
    (line s : String) → as_bytes (line_then line s) ≡ as_bytes line ++ (10 ∷ as_bytes s)
unfolding as_bytes encode_utf8
as_bytes-line_then line s = as_bytes-append line (String.◌∷◌ (char 10 tt) s)

-- A text with the bytes of two lines is these two lines.
pub two_lines :
    (first second content : String)
    → as_bytes content ≡ (as_bytes first ++ (10 ∷ [])) ++ (as_bytes second ++ (10 ∷ []))
    → content ≡ line_then first (line_then second "")
unfolding as_bytes
two_lines first second content same =
    as_bytes-injective content (line_then first (line_then second "")) (
      same
      ∙ append_assoc (as_bytes first) (10 ∷ []) (as_bytes second ++ (10 ∷ []))
      ∙ sym (
          as_bytes-line_then first (line_then second "")
          ∙ ap (λ l. as_bytes first ++ (10 ∷ l)) (as_bytes-line_then second "")))
