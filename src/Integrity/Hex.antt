-- ===== src/Integrity/Hex.antt =====
-- The hexadecimal encoding of src/integrity.rs loses nothing.
use Prim.Native.Char.{Char, code}
use dmlpact.Base.{ℕ, ◌-◌, ◌/◌, ◌%◌, ◌<◌, ◌≡◌, refl, ap, sym, ◌∙◌, String, Bool, true, [], ◌∷◌, All}
use dmlpact.Base.{
  ltb, if◌then◌else◌, arith, ◌&&◌, ◌==◌, &&-eq-true, Bool-cases, inl, inr, subst, ==_iff,
  ==-eq-false, zero, suc,
}
use dmlpact.Base.Text.{Bytes}
use dmlpact.Integrity.{hex_digit, encode_hex}

-- The value of a hexadecimal digit.
abbrev digit_value : Char → ℕ
digit_value c = if ltb (code c) 58 then code c - 48 else code c - 87

-- A test of the numbers below a bound, and what it tells.
abbrev all_below : (ℕ → Bool) → ℕ → Bool
all_below p zero = true
all_below p (suc k) = p k && all_below p k

below : (p : ℕ → Bool) (k n : ℕ) → all_below p k ≡ true → n < k → p n ≡ true
below p zero n h less = absurd (omega (arith, less))
below p (suc k) n h less =
    let (here, rest) = &&-eq-true _ _ h in
    elim (Bool-cases (n == k)) [
      | inl e ↦ subst (λ m. p m ≡ true) (sym ((==_iff n k).0 e)) here
      | inr e ↦ below p k n rest (omega (arith, less, ==-eq-false n k e))
    ]

digit_value-hex_digit : (n : ℕ) → n < 16 → digit_value (hex_digit n) ≡ n
unfolding hex_digit
digit_value-hex_digit n small =
    (==_iff _ _).0 (below (λ m. digit_value (hex_digit m) == m) 16 n refl small)

-- Equal texts have equal parts.
abbrev head_of : Char → String → Char
head_of d String.[] = d
head_of d (String.◌∷◌ c s) = c

abbrev tail_of : String → String
tail_of String.[] = ""
tail_of (String.◌∷◌ c s) = s

abbrev pub IsByte : ℕ → Type 0
IsByte b = b < 256

digits-injective :
    (a b : ℕ)
    → a < 256
    → b < 256
    → hex_digit (a / 16) ≡ hex_digit (b / 16)
    → hex_digit (a % 16) ≡ hex_digit (b % 16)
    → a ≡ b
digits-injective a b small_a small_b high low =
    let h =
      sym (digit_value-hex_digit (a / 16) (omega (arith, small_a)))
      ∙ ap digit_value high
      ∙ digit_value-hex_digit (b / 16) (omega (arith, small_b)) in
    let l =
      sym (digit_value-hex_digit (a % 16) (omega arith))
      ∙ ap digit_value low
      ∙ digit_value-hex_digit (b % 16) (omega arith) in
    omega (arith, h, l)

-- Two lists of bytes with the same hexadecimal text are the same list.
pub encode_hex-injective :
    (a b : Bytes) → All IsByte a → All IsByte b → encode_hex a ≡ encode_hex b → a ≡ b
unfolding encode_hex
encode_hex-injective [] [] small_a small_b e = refl
encode_hex-injective [] (y ∷ b) small_a small_b e = cc
encode_hex-injective (x ∷ a) [] small_a small_b e = cc
encode_hex-injective (x ∷ a) (y ∷ b) (small_x, small_a) (small_y, small_b) e =
    let c = hex_digit 0 in
    let x_eq =
      digits-injective x y small_x small_y (ap (head_of c) e) (ap (λ s. head_of c (tail_of s)) e) in
    let rest = encode_hex-injective a b small_a small_b (ap (λ s. tail_of (tail_of s)) e) in
    ap (λ z. z ∷ a) x_eq ∙ ap (λ t. y ∷ t) rest
