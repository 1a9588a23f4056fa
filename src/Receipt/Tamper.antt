-- ===== src/Receipt/Tamper.antt =====
-- What the seal of a plan in src/receipt.rs pins down.
use dmlpact.Base.{String, some, ◌≡◌, sym, ◌∙◌, All}
use dmlpact.Base.Text.{Bytes, as_bytes}
use dmlpact.Error.{ok}
use dmlpact.Model.{Plan}
use dmlpact.System.{System}
use dmlpact.Integrity.{sha256_bytes}
use dmlpact.Integrity.Hex.{IsByte, encode_hex-injective}
use dmlpact.Integrity.Collision.{hashed_text}
use dmlpact.Receipt.Seal.{unsigned, verified_plan_sha256}
use dmlpact.Receipt.Sealing.{verified_plan_sha256-eq-ok}

-- Two plans whose serialisations without the seal have the same digest.
pub record HaveSameDigest (S : System) (p q : Plan) : Type 0 where
  pub text : String
  pub other_text : String
  pub serialised : S.plan_json (unsigned p) ≡ some text
  pub other_serialised : S.plan_json (unsigned q) ≡ some other_text
  pub same_digest : S.digest (as_bytes text) ≡ S.digest (as_bytes other_text)

module _ (S : System) where
  -- If the digest gives bytes, two plans that pass the check under the same seal have, without the
  -- seal, serialisations with the same digest: a change to a sealed plan is found, or it is a
  -- collision of the digest.
  pub verified_plan_sha256-HaveSameDigest :
      ((bytes : Bytes) → All IsByte (S.digest bytes))
      → (p q : Plan) (h : String) → verified_plan_sha256 S p ≡ ok h
      → verified_plan_sha256 S q ≡ ok h
      → HaveSameDigest S p q
  unfolding sha256_bytes
  verified_plan_sha256-HaveSameDigest bytes p q h checked other_checked =
      let (x, text, hash) = hashed_text S _ (verified_plan_sha256-eq-ok S p checked).1 in
      let (y, other, other_hash) =
        hashed_text S _ (verified_plan_sha256-eq-ok S q other_checked).1 in
      record {
        text = x;
        other_text = y;
        serialised = text;
        other_serialised = other;
        same_digest =
            encode_hex-injective (S.digest (as_bytes x)) (S.digest (as_bytes y)) (bytes _) (bytes _)
              (hash ∙ sym other_hash);
      }
