-- ===== src/Receipt/Check/Exact.antt =====
-- `verify_receipt` of src/receipt.rs accepts every chain that it should, and the hash of the last
-- event pins the whole chain down.
use dmlpact.Base.{
  ◌≡◌, ◌↔◌, refl, ap, sym, ◌∙◌, some, [], ◌∷◌, ◌⊎◌, inl, inr, not_lt→ltb, text_eq_self,
}
use mathlib.Core.Option.{some-injective}
use dmlpact.Error.{ok}
use dmlpact.Error.Pure.{>>=-eq-ok}
use dmlpact.Model.{ReceiptEvent, ReceiptVerification, same_self, Text_option-discrete}
use dmlpact.System.{System}
use dmlpact.Integrity.Collision.{Collision, DigestIsBytes, same_json}
use dmlpact.Receipt.Seal.{unsigned_event, event_sha256, validate_event}
use dmlpact.Receipt.Sealing.{check_claim_self}
use dmlpact.Receipt.Check.{
  prepared_invalid, chain_invalid, check_prepared, check_final, report, verification, verify_events,
}
use dmlpact.Receipt.Check.Chain.{
  IsSealed, IsPrepared, Continues, check_prepared-IsPrepared, check_final-Continues, reported,
}

module _ (S : System) where
  sealed_accepted : (event : ReceiptEvent) → IsSealed S event → validate_event S event ≡ ok tt
  unfolding validate_event event_sha256
  sealed_accepted event sealed =
      rw (sealed.actual, sealed.schema, sealed.supported, sealed.claimed)
        (rw
          (check_claim_self "receipt_event_hash_mismatch"
            "a receipt event integrity hash does not match its contents" sealed.hash)
          refl)

  prepared_accepted : (event : ReceiptEvent) → IsPrepared S event → check_prepared S event ≡ ok tt
  unfolding check_prepared prepared_invalid
  prepared_accepted event p =
      rw (sealed_accepted event p.sealed, p.first, p.prepared, p.no_previous, p.no_result) refl

  final_accepted :
      (prepared event : ReceiptEvent)
      → Continues S prepared event
      → check_final S prepared event ≡ ok tt
  unfolding check_final chain_invalid
  final_accepted prepared event c =
      rw
        (
          sealed_accepted event c.sealed,
          c.second,
          c.final,
          c.has_result,
          c.same_receipt,
          c.same_plan,
          c.same_file,
          c.linked,
          text_eq_self prepared.receipt_id,
          text_eq_self prepared.plan_sha256,
          text_eq_self prepared.sql_file_sha256,
          same_self Text_option-discrete prepared.event_sha256,
          not_lt→ltb event.timestamp_unix_ms prepared.timestamp_unix_ms c.not_before,
        )
        refl

  accepted :
      (prepared event : ReceiptEvent)
      → IsPrepared S prepared
      → (c : Continues S prepared event)
      → verify_events S (prepared ∷ event ∷ []) ≡ ok (verification prepared event 2 c.sealed.hash)
  unfolding verify_events report
  accepted prepared event p c =
      rw (prepared_accepted prepared p, final_accepted prepared event c, c.sealed.claimed) refl

  -- What an accepted pair is, with the hash in its report.
  chain_of :
      (prepared event : ReceiptEvent) (v : ReceiptVerification)
      → verify_events S (prepared ∷ event ∷ []) ≡ ok v
      → IsPrepared S prepared
        × Continues S prepared event
        × (some v.final_event_sha256 ≡ event.event_sha256)
  unfolding verify_events verification
  chain_of prepared event v run =
      let (_, first, run₁) = >>=-eq-ok (check_prepared S prepared) _ run in
      let (_, second, run₂) = >>=-eq-ok (check_final S prepared event) _ run₁ in
      let (hash, stored, e) = reported prepared event 2 run₂ in
      (
        check_prepared-IsPrepared S prepared first,
        check_final-Continues S prepared event second,
        ap (λ (x : ReceiptVerification). some x.final_event_sha256) e ∙ sym stored,
      )

  -- Two events are accepted by `verify_events` exactly when the first is a sealed prepared event and
  -- the second a sealed terminal event that continues it: with a result, of the same receipt, plan
  -- and SQL file, linked to it by its hash, and not earlier.
  pub verify_events_iff :
      (prepared event : ReceiptEvent)
      → ((v : ReceiptVerification) × (verify_events S (prepared ∷ event ∷ []) ≡ ok v))
        ↔ (IsPrepared S prepared × Continues S prepared event)
  verify_events_iff prepared event = (
    (λ (v, run). let (p, c, _) = chain_of prepared event v run in (p, c)),
    (λ (p, c). (_, accepted prepared event p c)),
  )

  -- Seals with one hash are over serialisations that agree, or the digest has a collision.
  same_seal :
      DigestIsBytes S
      → (a b : ReceiptEvent) (sealed : IsSealed S a) (sealed' : IsSealed S b)
      → a.event_sha256 ≡ b.event_sha256
      → (S.event_json (unsigned_event a) ≡ S.event_json (unsigned_event b)) ⊎ Collision S
  unfolding event_sha256
  same_seal bytes a b sealed sealed' same =
      same_json S bytes (S.event_json (unsigned_event a)) (S.event_json (unsigned_event b))
        sealed.actual
        (sealed'.actual
          ∙ ap ok (sym (some-injective _ _ (sym sealed.claimed ∙ same ∙ sealed'.claimed))))

  -- If the digest gives bytes and the serialisation of an event tells the hash that it links to, two
  -- complete receipts with the same final hash have the same serialised terminal events and the same
  -- serialised prepared events, without their seals, or two inputs of the digest collide: the hash in
  -- the report pins the whole receipt down.
  pub verify_events-Collision :
      DigestIsBytes S
      → ((a b : ReceiptEvent)
          → S.event_json (unsigned_event a) ≡ S.event_json (unsigned_event b)
          → a.previous_event_sha256 ≡ b.previous_event_sha256)
      → (prepared event other last : ReceiptEvent) (v w : ReceiptVerification)
      → verify_events S (prepared ∷ event ∷ []) ≡ ok v
      → verify_events S (other ∷ last ∷ []) ≡ ok w
      → v.final_event_sha256 ≡ w.final_event_sha256
      → ((S.event_json (unsigned_event event) ≡ S.event_json (unsigned_event last))
          × (S.event_json (unsigned_event prepared) ≡ S.event_json (unsigned_event other)))
        ⊎ Collision S
  verify_events-Collision bytes links prepared event other last v w run run' same =
      let (p, c, hash) = chain_of prepared event v run in
      let (p', c', hash') = chain_of other last w run' in
      elim (same_seal bytes event last c.sealed c'.sealed (sym hash ∙ ap some same ∙ hash')) [
        | inr collision ↦ inr collision
        | inl finals ↦
            elim (same_seal bytes prepared other p.sealed p'.sealed
              (sym c.linked ∙ links event last finals ∙ c'.linked)) [
                | inr collision ↦ inr collision
                | inl firsts ↦ inl (finals, firsts)
              ]
      ]
