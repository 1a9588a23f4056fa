-- ===== src/Receipt/Check/Written.antt =====
-- What `ReceiptJournal` of src/receipt.rs writes, `verify_receipt` accepts.
use dmlpact.Base.{
  ℕ, ◌≤◌, String, true, false, ◌≡◌, refl, ap, some, [], ◌∷◌, text_eq_self, not_lt→ltb, subst,
}
use dmlpact.Error.{ok}
use dmlpact.Model.{
  ReceiptState, ReceiptResult, ReceiptEvent, receipt_schema_version, is_final, same_self,
  Text_option-discrete,
}
use dmlpact.System.{System}
use dmlpact.Integrity.{sha256_json}
use dmlpact.Receipt.Version.{is_supported_artifact_tool_version}
use dmlpact.Receipt.Seal.{
  unsigned_event, event_sha256, seal_event, validate_event, prepared_event, final_event,
}
use dmlpact.Receipt.Sealing.{check_claim_self, seal_event-eq-ok}
use dmlpact.Receipt.Check.{
  prepared_invalid, chain_invalid, check_prepared, check_final, report, verification, verify_events,
}

pub own_version : (v : String) → is_supported_artifact_tool_version v v ≡ true
unfolding is_supported_artifact_tool_version
own_version v = rw (text_eq_self v) refl

module _ (S : System) where
  pub sealed_valid :
      (e : ReceiptEvent) (h : String)
      → e.schema_version ≡ receipt_schema_version
      → is_supported_artifact_tool_version S.tool_version e.tool_version ≡ true
      → sha256_json S (S.event_json (unsigned_event e)) ≡ ok h
      → validate_event S (record e { event_sha256 = some h }) ≡ ok tt
  unfolding validate_event event_sha256
  sealed_valid e h schema tool hashed =
      rw (hashed, schema, tool)
        (rw
          (check_claim_self "receipt_event_hash_mismatch"
            "a receipt event integrity hash does not match its contents" h)
          refl)

  module _ (plan file : String) (ts ts' : ℕ) (state : ReceiptState) (result : ReceiptResult) where
    abbrev pub prepared_with : String → ReceiptEvent
    prepared_with hp = record (prepared_event S plan file ts) { event_sha256 = some hp }

    abbrev pub final_with : String → String → ReceiptEvent
    final_with hp hf = record (final_event S (prepared_with hp) ts' state result) {
      event_sha256 = some hf;
    }

    pub prepared_accepted :
        (hp : String)
        → event_sha256 S (prepared_event S plan file ts) ≡ ok hp
        → check_prepared S (prepared_with hp) ≡ ok tt
    unfolding check_prepared prepared_invalid event_sha256 prepared_event
    prepared_accepted hp hashed =
        rw
          (sealed_valid (prepared_event S plan file ts) hp refl (own_version S.tool_version) hashed)
          refl

    links_hold :
        (hp hf : String)
        → is_final state ≡ true
        → ts ≤ ts'
        → chain_invalid (prepared_with hp) (final_with hp hf) ≡ false
    unfolding chain_invalid prepared_event final_event
    links_hold hp hf terminal later =
        rw
          (
            terminal,
            text_eq_self (prepared_with hp).receipt_id,
            text_eq_self plan,
            text_eq_self file,
            same_self Text_option-discrete (some hp),
            not_lt→ltb ts' ts later,
          )
          refl

    final_accepted :
        (hp hf : String)
        → is_final state ≡ true
        → ts ≤ ts'
        → event_sha256 S (final_event S (prepared_with hp) ts' state result) ≡ ok hf
        → check_final S (prepared_with hp) (final_with hp hf) ≡ ok tt
    unfolding check_final event_sha256 prepared_event final_event
    final_accepted hp hf terminal later hashed =
        rw
          (sealed_valid (final_event S (prepared_with hp) ts' state result) hf refl
            (own_version S.tool_version) hashed)
          (rw (links_hold hp hf terminal later) refl)

    both_accepted :
        (hp hf : String)
        → is_final state ≡ true
        → ts ≤ ts'
        → event_sha256 S (prepared_event S plan file ts) ≡ ok hp
        → event_sha256 S (final_event S (prepared_with hp) ts' state result) ≡ ok hf
        → verify_events S (prepared_with hp ∷ final_with hp hf ∷ [])
          ≡ ok (verification (prepared_with hp) (final_with hp hf) 2 hf)
    unfolding verify_events report
    both_accepted hp hf terminal later hashed hashed' =
        rw (prepared_accepted hp hashed) (rw (final_accepted hp hf terminal later hashed') refl)

    as_sealed :
        (prepared final : ReceiptEvent) (hp hf : String)
        → prepared ≡ prepared_with hp
        → final ≡ final_with hp hf
        → verify_events S (prepared_with hp ∷ final_with hp hf ∷ [])
          ≡ ok (verification (prepared_with hp) (final_with hp hf) 2 hf)
        → verify_events S (prepared ∷ final ∷ []) ≡ ok (verification prepared final 2 hf)
    as_sealed prepared final hp hf e e' accepted = rw (e, e') accepted

    -- An open receipt and its terminal event, sealed one after the other, are accepted by
    -- `verify_events` if the clock has not gone back in between; the report is complete and names the
    -- terminal state and the seal of the last event.
    pub verify_events-final_event :
        (prepared final : ReceiptEvent)
        → seal_event S (prepared_event S plan file ts) ≡ ok prepared
        → seal_event S (final_event S prepared ts' state result) ≡ ok final
        → is_final state ≡ true
        → ts ≤ ts'
        → (hash : String) × (final.event_sha256 ≡ some hash)
          × (verify_events S (prepared ∷ final ∷ []) ≡ ok (verification prepared final 2 hash))
    verify_events-final_event prepared final first second terminal later =
        let (hp, hashed, e) = seal_event-eq-ok S (prepared_event S plan file ts) first in
        let second' =
          subst (λ x. seal_event S (final_event S x ts' state result) ≡ ok final) e second in
        let (hf, hashed', e') =
          seal_event-eq-ok S (final_event S (prepared_with hp) ts' state result) second' in
        (
          hf,
          ap (λ (x : ReceiptEvent). x.event_sha256) e',
          as_sealed prepared final hp hf e e' (both_accepted hp hf terminal later hashed hashed'),
        )
