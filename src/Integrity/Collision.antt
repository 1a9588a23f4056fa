-- ===== src/Integrity/Collision.antt =====
-- Equal hashes of src/integrity.rs come from equal inputs, or from a collision of the digest.
use dmlpact.Base.{
  ℕ_discrete, String, Option, none, some, ◌≡◌, ◌≢◌, refl, ap, sym, ◌∙◌, ◌⊎◌, inl, inr, All,
}
use dmlpact.Base.Text.{Bytes, as_bytes}
use dmlpact.Base.Text.Utf8.{as_bytes-injective}
use dmlpact.Error.{ok}
use dmlpact.Error.Pure.{ok-injective}
use dmlpact.System.{System}
use dmlpact.Integrity.{sha256_bytes, sha256_json}
use dmlpact.Integrity.Hex.{IsByte, encode_hex-injective}

Bytes-discrete : Discrete Bytes
unfolding ℕ_discrete
Bytes-discrete = hlevel ℕ_discrete

-- Two inputs that the digest does not tell apart.
abbrev pub Collision : System → Type 0
Collision S = (x : Bytes) × (y : Bytes) × (x ≢ y) × (S.digest x ≡ S.digest y)

-- The digest is a list of bytes.
abbrev pub DigestIsBytes : System → Type 0
DigestIsBytes S = (bytes : Bytes) → All IsByte (S.digest bytes)

module _ (S : System) (bytes : DigestIsBytes S) where
  pub same_bytes : (x y : Bytes) → sha256_bytes S x ≡ sha256_bytes S y → (x ≡ y) ⊎ Collision S
  unfolding sha256_bytes Bytes-discrete
  same_bytes x y same = elim (Bytes-discrete x y) [
    | yes e ↦ inl e
    | no differ ↦
        inr (x, y, differ, encode_hex-injective (S.digest x) (S.digest y) (bytes x) (bytes y) same)
  ]

  pub same_string :
      (s s' : String)
      → sha256_bytes S (as_bytes s) ≡ sha256_bytes S (as_bytes s')
      → (s ≡ s') ⊎ Collision S
  same_string s s' same = elim (same_bytes (as_bytes s) (as_bytes s') same) [
    | inl e ↦ inl (as_bytes-injective s s' e)
    | inr collision ↦ inr collision
  ]

-- A serialisation that was hashed.
pub hashed_text :
    (S : System) (o : Option String) {h : String}
    → sha256_json S o ≡ ok h
    → (text : String) × (o ≡ some text) × (sha256_bytes S (as_bytes text) ≡ h)
unfolding sha256_json
hashed_text S none e = cc
hashed_text S (some text) e = (text, refl, ok-injective e)

module _ (S : System) (bytes : DigestIsBytes S) where
  pub same_json :
      (o o' : Option String) {h : String}
      → sha256_json S o ≡ ok h
      → sha256_json S o' ≡ ok h
      → (o ≡ o') ⊎ Collision S
  same_json o o' e e' =
      let (text, is, hash) = hashed_text S o e in
      let (text', is', hash') = hashed_text S o' e' in
      elim (same_string S bytes text text' (hash ∙ sym hash')) [
        | inl same ↦ inl (is ∙ ap some same ∙ sym is')
        | inr collision ↦ inr collision
      ]
