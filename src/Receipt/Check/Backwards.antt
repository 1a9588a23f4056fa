-- ===== src/Receipt/Check/Backwards.antt =====
-- A receipt of src/receipt.rs whose terminal event was written after the clock had gone back.
use dmlpact.Base.{ℕ, ◌<◌, String, Bool, true, false, ◌||◌, ltb, ◌≡◌, refl, subst, [], ◌∷◌, arith}
use dmlpact.Error.{AppError, ok, err}
use dmlpact.Model.{ReceiptState, ReceiptResult, ReceiptEvent}
use dmlpact.System.{System}
use dmlpact.Receipt.Version.{contract}
use dmlpact.Receipt.Seal.{event_sha256, seal_event, prepared_event, final_event}
use dmlpact.Receipt.Sealing.{seal_event-eq-ok}
use dmlpact.Receipt.Check.{chain_invalid, check_final, verify_events}
use dmlpact.Receipt.Check.Written.{
  own_version, sealed_valid, prepared_accepted, prepared_with, final_with,
}

or_true : (a b : Bool) → b ≡ true → (a || b) ≡ true
or_true true b e = refl
or_true false b e = e

earlier : (a b : ℕ) → a < b → ltb a b ≡ true
earlier a b h = ground arith

abbrev pub chain_error : AppError
chain_error =
    contract "receipt_chain_invalid" "the final receipt event does not continue the prepared event"

module _ (S : System) (plan file : String) (ts ts' : ℕ) (state : ReceiptState)
    (result : ReceiptResult) where
  link_fails :
      (hp hf : String)
      → ts' < ts
      → chain_invalid
          (prepared_with S plan file ts ts' state result hp)
          (final_with S plan file ts ts' state result hp hf)
        ≡ true
  unfolding chain_invalid prepared_event final_event
  link_fails hp hf back = or_true _ _ (earlier ts' ts back)

  rejected :
      (hp hf : String)
      → ts' < ts
      → event_sha256 S (prepared_event S plan file ts) ≡ ok hp
      → event_sha256 S
          (final_event S (prepared_with S plan file ts ts' state result hp) ts' state result)
        ≡ ok hf
      → verify_events S (
          prepared_with S plan file ts ts' state result hp
          ∷ final_with S plan file ts ts' state result hp hf
          ∷ [])
        ≡ err chain_error
  unfolding verify_events check_final event_sha256 prepared_event final_event
  rejected hp hf back hashed hashed' =
      rw
        (
          prepared_accepted S plan file ts ts' state result hp hashed,
          sealed_valid S
              (final_event S (prepared_with S plan file ts ts' state result hp) ts' state result) hf
              refl (own_version S.tool_version) hashed',
          link_fails hp hf back,
        )
        refl

  -- A prepared event and its terminal event, sealed as `create` and `finalize` seal them, are refused
  -- by `verify_events` as a broken chain if the clock has gone back in between, in whatever state the
  -- receipt ended.
  pub verify_events-backwards :
      (prepared final : ReceiptEvent)
      → seal_event S (prepared_event S plan file ts) ≡ ok prepared
      → seal_event S (final_event S prepared ts' state result) ≡ ok final
      → ts' < ts
      → verify_events S (prepared ∷ final ∷ []) ≡ err chain_error
  verify_events-backwards prepared final first second back =
      let (hp, hashed, e) = seal_event-eq-ok S (prepared_event S plan file ts) first in
      let second' =
        subst (λ x. seal_event S (final_event S x ts' state result) ≡ ok final) e second in
      let (hf, hashed', e') =
        seal_event-eq-ok S
          (final_event S (prepared_with S plan file ts ts' state result hp) ts' state result)
          second' in
      rw (e, e') (rejected hp hf back hashed hashed')
