-- ===== src/Base/Text/Utf8.antt =====
-- The UTF-8 bytes of a text give the text back, and `len` counts them.
use Prim.Native.Char.{Char, code, len_utf8, len_utf8_def}
use Prim.Native.Nat.{ℕ, zero, suc, ◌+◌, ◌-◌, ◌*◌}
use Prim.Native.String.append
use Prim.Native.String.len
use Prim.Native.String.{String, ◌++◌ as ◌<>◌, len}
use mathlib.Core.Path.{◌≡◌, refl, ap, sym, ◌∙◌}
use mathlib.Core.List.{[], ◌∷◌, ◌++◌, append_assoc}
use native.Mathlib.Omega.{arith}
use text.Mathlib.TextEquality.{Char-path}
use dmlpact.Base.Tests.{ltb, if◌then◌else◌}
use dmlpact.Base.Lists.{length, length-append}
use dmlpact.Base.Text.{Bytes, encode_utf8, as_bytes}

abbrev byte_at : Bytes → ℕ → ℕ
byte_at [] i = 0
byte_at (b ∷ bs) zero = b
byte_at (b ∷ bs) (suc i) = byte_at bs i

abbrev after : ℕ → Bytes → Bytes
after zero bs = bs
after (suc n) [] = []
after (suc n) (b ∷ bs) = after n bs

-- The code point that the bytes begin with, and the bytes behind it.
first_code : Bytes → ℕ
first_code bs =
    if ltb (byte_at bs 0) 128
    then byte_at bs 0
    else if ltb (byte_at bs 0) 224
    then (byte_at bs 0 - 192) * 64 + (byte_at bs 1 - 128)
    else if ltb (byte_at bs 0) 240
    then (byte_at bs 0 - 224) * 4096 + (byte_at bs 1 - 128) * 64 + (byte_at bs 2 - 128)
    else (byte_at bs 0 - 240) * 262144
      + (byte_at bs 1 - 128) * 4096
      + (byte_at bs 2 - 128) * 64
      + (byte_at bs 3 - 128)

behind_first : Bytes → Bytes
behind_first bs =
    if ltb (byte_at bs 0) 128
    then after 1 bs
    else if ltb (byte_at bs 0) 224
    then after 2 bs
    else if ltb (byte_at bs 0) 240
    then after 3 bs
    else after 4 bs

first_code-encode_utf8 : (c : ℕ) (bs : Bytes) → first_code (encode_utf8 c ++ bs) ≡ c
unfolding first_code encode_utf8
first_code-encode_utf8 c bs = ground arith

behind_first-encode_utf8 : (c : ℕ) (bs : Bytes) → behind_first (encode_utf8 c ++ bs) ≡ bs
unfolding behind_first encode_utf8
behind_first-encode_utf8 c bs = ground arith

encode_utf8-injective :
    (c d : ℕ) (bs bs' : Bytes) → encode_utf8 c ++ bs ≡ encode_utf8 d ++ bs' → (c ≡ d) × (bs ≡ bs')
encode_utf8-injective c d bs bs' e = (
  sym (first_code-encode_utf8 c bs) ∙ ap first_code e ∙ first_code-encode_utf8 d bs',
  sym (behind_first-encode_utf8 c bs) ∙ ap behind_first e ∙ behind_first-encode_utf8 d bs',
)

-- No text but the empty one has no bytes.
encode_utf8-nonempty : (c : ℕ) (bs : Bytes) → encode_utf8 c ++ bs ≡ [] → ⊥
unfolding encode_utf8
encode_utf8-nonempty c bs e = ground arith

pub as_bytes-injective : (s t : String) → as_bytes s ≡ as_bytes t → s ≡ t
unfolding as_bytes
as_bytes-injective String.[] String.[] e = refl
as_bytes-injective String.[] (String.◌∷◌ d t) e =
    absurd (encode_utf8-nonempty (code d) (as_bytes t) (sym e))
as_bytes-injective (String.◌∷◌ c s) String.[] e =
    absurd (encode_utf8-nonempty (code c) (as_bytes s) e)
as_bytes-injective (String.◌∷◌ c s) (String.◌∷◌ d t) e =
    let (same, rest) = encode_utf8-injective (code c) (code d) (as_bytes s) (as_bytes t) e in
    λ i. String.◌∷◌ (Char-path c d same i) (as_bytes-injective s t rest i)

pub as_bytes-append : (s t : String) → as_bytes (s <> t) ≡ as_bytes s ++ as_bytes t
unfolding as_bytes
as_bytes-append String.[] t = ap as_bytes (append.nil t)
as_bytes-append (String.◌∷◌ c s) t =
    ap as_bytes (append.cons c s t)
    ∙ ap (λ l. encode_utf8 (code c) ++ l) (as_bytes-append s t)
    ∙ sym (append_assoc (encode_utf8 (code c)) (as_bytes s) (as_bytes t))

length-encode_utf8 : (c : Char) → length (encode_utf8 (code c)) ≡ len_utf8 c
unfolding encode_utf8
length-encode_utf8 c = rw (len_utf8_def c) (ground arith)

-- `len` counts the bytes.
pub length-as_bytes : (s : String) → length (as_bytes s) ≡ len s
unfolding as_bytes
length-as_bytes String.[] = sym len.nil
length-as_bytes (String.◌∷◌ c s) = omega (
  arith,
  len.cons c s,
  length-append (encode_utf8 (code c)) (as_bytes s),
  length-encode_utf8 c,
  length-as_bytes s,
)
