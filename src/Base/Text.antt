-- ===== src/Base/Text.antt =====
-- Texts as Rust's `str` and `String` hold them: code points, with the UTF-8 bytes, the lines, the
-- trimmed text and the decimal numerals that the standard library gives.
pub mod Lines
pub mod Utf8
use Prim.Native.Char.{Char, code}
use Prim.Native.String.{String, ◌++◌ as ◌<>◌}
use Prim.Native.Nat.{ℕ, zero, suc, ◌+◌, ◌/◌, ◌%◌}
use mathlib.Core.Bool.{Bool, true, false, ◌&&◌, ◌||◌}
use mathlib.Core.List.{List, [], ◌∷◌, ◌++◌}
use dmlpact.Base.Tests.{ltb, leb, ◌==◌, if◌then◌else◌}

abbrev pub Byte : Type 0
Byte = ℕ

abbrev pub Bytes : Type 0
Bytes = List Byte

-- The UTF-8 bytes of one code point.
unfoldable pub encode_utf8 : ℕ → Bytes
encode_utf8 c =
    if ltb c 128
    then c ∷ []
    else if ltb c 2048
    then (192 + c / 64) ∷ (128 + c % 64) ∷ []
    else if ltb c 65536
    then (224 + c / 4096) ∷ (128 + c / 64 % 64) ∷ (128 + c % 64) ∷ []
    else (240 + c / 262144) ∷ (128 + c / 4096 % 64) ∷ (128 + c / 64 % 64) ∷ (128 + c % 64) ∷ []

-- `str::as_bytes`.
unfoldable pub as_bytes : String → Bytes
unfolding encode_utf8
as_bytes String.[] = []
as_bytes (String.◌∷◌ c s) = encode_utf8 (code c) ++ as_bytes s

-- The code points with the Unicode property White_Space, which `str::trim` takes away.
unfoldable pub is_whitespace : ℕ → Bool
is_whitespace c =
    (leb 9 c && leb c 13)
    || c == 32
    || c == 0x85
    || c == 0xa0
    || c == 0x1680
    || (leb 0x2000 c && leb c 0x200a)
    || c == 0x2028
    || c == 0x2029
    || c == 0x202f
    || c == 0x205f
    || c == 0x3000

-- `s.trim().is_empty()`: nothing but white space.
unfoldable pub is_blank : String → Bool
unfolding is_whitespace
is_blank String.[] = true
is_blank (String.◌∷◌ c s) = is_whitespace (code c) && is_blank s

-- `char::is_ascii_alphabetic` and `char::is_ascii_alphanumeric`.
unfoldable pub is_ascii_alphabetic : ℕ → Bool
is_ascii_alphabetic c = (leb b'A' c && leb c b'Z') || (leb b'a' c && leb c b'z')

unfoldable pub is_ascii_alphanumeric : ℕ → Bool
unfolding is_ascii_alphabetic
is_ascii_alphanumeric c = is_ascii_alphabetic c || (leb b'0' c && leb c b'9')

-- `char::to_ascii_lowercase`, on code points.
unfoldable pub to_ascii_lowercase : ℕ → ℕ
to_ascii_lowercase c = if leb b'A' c && leb c b'Z' then c + 32 else c

-- `str::eq_ignore_ascii_case`; `s.to_ascii_lowercase() == t` for a lower-case `t` is the same test.
unfoldable pub eq_ignore_ascii_case : String → String → Bool
unfolding to_ascii_lowercase
eq_ignore_ascii_case String.[] String.[] = true
eq_ignore_ascii_case (String.◌∷◌ c s) (String.◌∷◌ d t) =
    to_ascii_lowercase (code c) == to_ascii_lowercase (code d) && eq_ignore_ascii_case s t
eq_ignore_ascii_case _ _ = false

-- A line that ends in a carriage return loses it.
pub strip_return : String → String
strip_return String.[] = ""
strip_return (String.◌∷◌ c String.[]) = if code c == 13 then "" else String.◌∷◌ c ""
strip_return (String.◌∷◌ c (String.◌∷◌ d s)) = String.◌∷◌ c (strip_return (String.◌∷◌ d s))

-- One character in front of the first of the lines.
pub push_front : Char → List String → List String
push_front c [] = String.◌∷◌ c "" ∷ []
push_front c (l ∷ ls) = String.◌∷◌ c l ∷ ls

-- The pieces between the line feeds; a line feed at the end opens no further piece.
pub split_lines : String → List String
unfolding push_front
split_lines String.[] = []
split_lines (String.◌∷◌ c s) =
    let rest = split_lines s in if code c == 10 then "" ∷ rest else push_front c rest

pub strip_returns : List String → List String
unfolding strip_return
strip_returns [] = []
strip_returns (l ∷ ls) = strip_return l ∷ strip_returns ls

-- `str::lines`. Only a line that its line feed ends loses a carriage return before it.
pub ends_in_newline : String → Bool
ends_in_newline String.[] = false
ends_in_newline (String.◌∷◌ c String.[]) = code c == 10
ends_in_newline (String.◌∷◌ c (String.◌∷◌ d s)) = ends_in_newline (String.◌∷◌ d s)

pub strip_all_but_last : List String → List String
unfolding strip_return
strip_all_but_last [] = []
strip_all_but_last (l ∷ []) = l ∷ []
strip_all_but_last (l ∷ m ∷ ls) = strip_return l ∷ strip_all_but_last (m ∷ ls)

unfoldable pub lines : String → List String
unfolding split_lines strip_returns strip_all_but_last ends_in_newline
lines s =
    if ends_in_newline s then strip_returns (split_lines s) else strip_all_but_last (split_lines s)

-- `[String]::join`.
unfoldable pub join : String → List String → String
join separator [] = ""
join separator (s ∷ []) = s
join separator (s ∷ t ∷ ss) = s <> (separator <> join separator (t ∷ ss))

-- The decimal digit of a number below ten.
unfoldable pub digit : ℕ → String
digit zero = "0"
digit (suc zero) = "1"
digit (suc (suc zero)) = "2"
digit (suc (suc (suc zero))) = "3"
digit (suc (suc (suc (suc zero)))) = "4"
digit (suc (suc (suc (suc (suc zero))))) = "5"
digit (suc (suc (suc (suc (suc (suc zero)))))) = "6"
digit (suc (suc (suc (suc (suc (suc (suc zero))))))) = "7"
digit (suc (suc (suc (suc (suc (suc (suc (suc zero)))))))) = "8"
digit _ = "9"

-- The decimal numeral that `{}` prints. A number has fewer digits than one more than itself.
decimal_digits : ℕ → ℕ → String
unfolding digit
decimal_digits zero n = ""
decimal_digits (suc fuel) n = elim (ltb n 10) [
  | true ↦ digit n
  | false ↦ decimal_digits fuel (n / 10) <> digit (n % 10)
]

unfoldable pub show : ℕ → String
unfolding decimal_digits
show n = decimal_digits (suc n) n
