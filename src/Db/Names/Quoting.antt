-- ===== src/Db/Names/Quoting.antt =====
-- Two tables with one canonical name in src/db.rs have one schema and one name: what is quoted can be
-- read back.
use Prim.Native.Char.{Char, char, code}
use Prim.Native.String.append
use text.Mathlib.TextLemmas.{append_assoc, append-nil}
use dmlpact.Base.{
  String, ◌<>◌, Bool, true, false, ◌≡◌, refl, ap, sym, ◌∙◌, ◌==◌, if◌then◌else◌, Bool-cases, inl,
  inr,
}
use dmlpact.Model.{TableEvidence}
use dmlpact.Db.Names.{double_quotes, quote_identifier, canonical_table}

abbrev quote : Char
quote = char 34 tt

-- The text up to a quote that no second one follows, and the text behind it.
read_quoted : String → String × String
read_quoted String.[] = ("", "")
read_quoted (String.◌∷◌ c String.[]) = if code c == 34 then ("", "") else (String.◌∷◌ c "", "")
read_quoted (String.◌∷◌ c (String.◌∷◌ d s)) =
    let deep = read_quoted s in
    let next = read_quoted (String.◌∷◌ d s) in
    if code c == 34
    then (if code d == 34 then (String.◌∷◌ c deep.0, deep.1) else ("", String.◌∷◌ d s))
    else (String.◌∷◌ c next.0, next.1)

-- The text does not begin with a quote.
abbrev IsUnquoted : String → Type 0
IsUnquoted String.[] = Unit
IsUnquoted (String.◌∷◌ c s) = (code c == 34) ≡ false

read_plain :
    (c : Char) (s : String)
    → (code c == 34) ≡ false
    → read_quoted (String.◌∷◌ c s) ≡ (String.◌∷◌ c (read_quoted s).0, (read_quoted s).1)
unfolding read_quoted
read_plain c String.[] plain = rw plain refl
read_plain c (String.◌∷◌ d s) plain = rw plain refl

read_double :
    (c : Char) (s : String)
    → (code c == 34) ≡ true
    → read_quoted (String.◌∷◌ c (String.◌∷◌ c s))
      ≡ (String.◌∷◌ c (read_quoted s).0, (read_quoted s).1)
unfolding read_quoted
read_double c s quoted = rw quoted refl

read_end : (s : String) → IsUnquoted s → read_quoted (String.◌∷◌ quote s) ≡ ("", s)
unfolding read_quoted
read_end String.[] plain = refl
read_end (String.◌∷◌ d s) plain = rw plain refl

-- What was doubled is read back, with the text behind the closing quote.
read_quoted-double_quotes :
    (s rest : String)
    → IsUnquoted rest
    → read_quoted (double_quotes s <> String.◌∷◌ quote rest) ≡ (s, rest)
unfolding double_quotes
read_quoted-double_quotes String.[] rest plain =
    ap read_quoted (append.nil (String.◌∷◌ quote rest)) ∙ read_end rest plain
read_quoted-double_quotes (String.◌∷◌ c s) rest plain =
    let doubled = double_quotes s in
    let closing = String.◌∷◌ quote rest in
    let deep = read_quoted-double_quotes s rest plain in
    let read = λ (b : Bool).
      read_quoted
        ((if b then String.◌∷◌ c (String.◌∷◌ c doubled) else String.◌∷◌ c doubled) <> closing) in
    elim (Bool-cases (code c == 34)) [
      | inl quoted ↦
          ap read quoted
          ∙ ap read_quoted (
              append.cons c (String.◌∷◌ c doubled) closing
              ∙ ap (String.◌∷◌ c) (append.cons c doubled closing))
          ∙ read_double c (doubled <> closing) quoted
          ∙ ap (λ (p : String × String). (String.◌∷◌ c p.0, p.1)) deep
      | inr other ↦
          ap read other
          ∙ ap read_quoted (append.cons c doubled closing)
          ∙ read_plain c (doubled <> closing) other
          ∙ ap (λ (p : String × String). (String.◌∷◌ c p.0, p.1)) deep
    ]

tail_of : String → String
tail_of String.[] = ""
tail_of (String.◌∷◌ c s) = s

-- A quoted name in front of a text is read back, with that text.
read_name : String → String × String
unfolding tail_of
read_name s = read_quoted (tail_of s)

read_name-quote_identifier :
    (s rest : String) → IsUnquoted rest → read_name (quote_identifier s <> rest) ≡ (s, rest)
unfolding quote_identifier read_name tail_of
read_name-quote_identifier s rest plain =
    let body = double_quotes s <> "\"" in
    ap (λ x. read_quoted (tail_of x))
      (ap (λ x. x <> rest) (append.cons quote "" body ∙ ap (String.◌∷◌ quote) (append.nil body))
        ∙ append.cons quote body rest)
    ∙ ap read_quoted (
        append_assoc (double_quotes s) "\"" rest
        ∙ ap (λ x. double_quotes s <> x)
            (append.cons quote "" rest ∙ ap (String.◌∷◌ quote) (append.nil rest)))
    ∙ read_quoted-double_quotes s rest plain

-- The schema and the table that a canonical name was made of.
read_table : String → String × String
unfolding tail_of
read_table s = ((read_name s).0, (read_name (tail_of (read_name s).1)).0)

dotted : (s : String) → ("." <> s) ≡ String.◌∷◌ (char 46 tt) s
dotted s = append.cons (char 46 tt) "" s ∙ ap (String.◌∷◌ (char 46 tt)) (append.nil s)

read_table-canonical_table :
    (evidence : TableEvidence)
    → read_table (canonical_table evidence) ≡ (evidence.schema, evidence.table)
unfolding canonical_table read_table tail_of
read_table-canonical_table evidence =
    let first =
      ap (λ s. read_name (quote_identifier evidence.schema <> s))
        (dotted (quote_identifier evidence.table))
      ∙ read_name-quote_identifier evidence.schema
          (String.◌∷◌ (char 46 tt) (quote_identifier evidence.table)) refl in
    ap (λ (p : String × String). (p.0, (read_name (tail_of p.1)).0)) first
    ∙ ap (λ (p : String × String). (evidence.schema, p.0))
        (ap read_name (sym (append-nil (quote_identifier evidence.table)))
          ∙ read_name-quote_identifier evidence.table "" tt)

-- Two tables with the same canonical name have the same schema and the same table name, whatever
-- quotes and dots these hold.
pub canonical_table-injective :
    (evidence other : TableEvidence)
    → canonical_table evidence ≡ canonical_table other
    → (evidence.schema ≡ other.schema) × (evidence.table ≡ other.table)
canonical_table-injective evidence other same =
    let e =
      sym (read_table-canonical_table evidence)
      ∙ ap read_table same
      ∙ read_table-canonical_table other in
    (ap (λ (p : String × String). p.0) e, ap (λ (p : String × String). p.1) e)
