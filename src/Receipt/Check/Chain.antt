-- ===== src/Receipt/Check/Chain.antt =====
-- What a verified receipt is, by src/receipt.rs: one sealed prepared event, or two sealed events in a
-- chain.
use dmlpact.Base.{ℕ, ◌≤◌, String, true, false, not, text_eq, eq_iff, ◌≡◌, refl, ap, sym, ◌∙◌}
use dmlpact.Base.{Option, none, some, is_some, is_none, List, [], ◌∷◌, ◌⊎◌, inl, inr, ==_iff}
use dmlpact.Base.{ltb-eq-false, not-eq-false, ||-eq-false}
use dmlpact.Error.{ok}
use dmlpact.Error.Pure.{>>=-eq-ok, refuse_if-eq-ok, ok_or-eq-ok, ok-injective}
use dmlpact.Model.{
  ReceiptState, ReceiptResult, ReceiptEvent, ReceiptVerification, receipt_schema_version, is_final,
  differ-eq-false, ReceiptState-discrete, Text_option-discrete,
}
use dmlpact.System.{System}
use dmlpact.Receipt.Version.{is_supported_artifact_tool_version}
use dmlpact.Receipt.Seal.{event_sha256, validate_event}
use dmlpact.Receipt.Sealing.{check_claim-eq-ok}
use dmlpact.Receipt.Check.{
  prepared_invalid, chain_invalid, check_prepared, check_final, report, verification, verify_events,
}

-- An event of this schema, under the hash of its other fields.
pub record IsSealed (S : System) (event : ReceiptEvent) : Type 0 where
  pub schema : event.schema_version ≡ receipt_schema_version
  pub supported : is_supported_artifact_tool_version S.tool_version event.tool_version ≡ true
  pub hash : String
  pub claimed : event.event_sha256 ≡ some hash
  pub actual : event_sha256 S event ≡ ok hash

pub record IsPrepared (S : System) (event : ReceiptEvent) : Type 0 where
  pub sealed : IsSealed S event
  pub first : event.sequence ≡ 1
  pub prepared : event.state ≡ ReceiptState.prepared
  pub no_previous : event.previous_event_sha256 ≡ none
  pub no_result : event.result ≡ none

-- The second event continues the first.
pub record Continues (S : System) (prepared event : ReceiptEvent) : Type 0 where
  pub sealed : IsSealed S event
  pub second : event.sequence ≡ 2
  pub final : is_final event.state ≡ true
  pub result : ReceiptResult
  pub has_result : event.result ≡ some result
  pub same_receipt : event.receipt_id ≡ prepared.receipt_id
  pub same_plan : event.plan_sha256 ≡ prepared.plan_sha256
  pub same_file : event.sql_file_sha256 ≡ prepared.sql_file_sha256
  pub linked : event.previous_event_sha256 ≡ prepared.event_sha256
  pub not_before : prepared.timestamp_unix_ms ≤ event.timestamp_unix_ms

is_none_of : {A : Type 0} (o : Option A) → is_some o ≡ false → o ≡ none
is_none_of none h = refl
is_none_of (some a) h = cc

is_some_of : {A : Type 0} (o : Option A) → is_none o ≡ false → (a : A) × (o ≡ some a)
is_some_of none h = cc
is_some_of (some a) h = (a, refl)

text_same : (a b : String) → not (text_eq a b) ≡ false → a ≡ b
text_same a b h = (eq_iff a b).0 (not-eq-false _ h)

module _ (S : System) where
  validate_event-IsSealed :
      (event : ReceiptEvent) → validate_event S event ≡ ok tt → IsSealed S event
  unfolding validate_event
  validate_event-IsSealed event run =
      let (_, versions, run₁) = >>=-eq-ok _ _ run in
      let (claimed, stored, run₂) = >>=-eq-ok _ _ run₁ in
      let (actual, hashed, run₃) = >>=-eq-ok _ _ run₂ in
      let (h, checked, _) = >>=-eq-ok _ _ run₃ in
      let (schema, tool) = ||-eq-false _ _ (refuse_if-eq-ok _ _ versions) in
      let (same, _) = check_claim-eq-ok _ _ claimed actual checked in
      record {
        schema = text_same _ _ schema;
        supported = not-eq-false _ tool;
        hash = actual;
        claimed = ok_or-eq-ok _ _ stored ∙ ap some same;
        actual = hashed;
      }

  pub check_prepared-IsPrepared :
      (event : ReceiptEvent) → check_prepared S event ≡ ok tt → IsPrepared S event
  unfolding check_prepared prepared_invalid
  check_prepared-IsPrepared event run =
      let (_, sealed, run₁) = >>=-eq-ok _ _ run in
      let (abc, d) = ||-eq-false _ _ (refuse_if-eq-ok _ _ run₁) in
      let (ab, c) = ||-eq-false _ _ abc in
      let (a, b) = ||-eq-false _ _ ab in
      record {
        sealed = validate_event-IsSealed event sealed;
        first = (==_iff _ _).0 (not-eq-false _ a);
        prepared = differ-eq-false ReceiptState-discrete _ _ b;
        no_previous = is_none_of _ c;
        no_result = is_none_of _ d;
      }

  pub check_final-Continues :
      (prepared event : ReceiptEvent)
      → check_final S prepared event ≡ ok tt
      → Continues S prepared event
  unfolding check_final chain_invalid
  check_final-Continues prepared event run =
      let (_, sealed, run₁) = >>=-eq-ok _ _ run in
      let (abcdefg, h) = ||-eq-false _ _ (refuse_if-eq-ok _ _ run₁) in
      let (abcdef, g) = ||-eq-false _ _ abcdefg in
      let (abcde, f) = ||-eq-false _ _ abcdef in
      let (abcd, e) = ||-eq-false _ _ abcde in
      let (abc, d) = ||-eq-false _ _ abcd in
      let (ab, c) = ||-eq-false _ _ abc in
      let (a, b) = ||-eq-false _ _ ab in
      let (result, has_result) = is_some_of _ c in
      record {
        sealed = validate_event-IsSealed event sealed;
        second = (==_iff _ _).0 (not-eq-false _ a);
        final = not-eq-false _ b;
        result = result;
        has_result = has_result;
        same_receipt = text_same _ _ d;
        same_plan = text_same _ _ e;
        same_file = text_same _ _ f;
        linked = differ-eq-false Text_option-discrete _ _ g;
        not_before = ltb-eq-false _ _ h;
      }

-- What a report says of the events that it was made from.
pub record Reports (S : System) (events : List ReceiptEvent) (v : ReceiptVerification)
    : Type 0 where
  pub prepared : ReceiptEvent
  pub rest : List ReceiptEvent
  pub starts : events ≡ prepared ∷ rest
  pub is_prepared : IsPrepared S prepared
  pub same_plan : v.plan_sha256 ≡ prepared.plan_sha256
  pub same_receipt : v.receipt_id ≡ prepared.receipt_id
  pub ends :
      ((rest ≡ [])
        × (v.complete ≡ false)
        × (v.final_state ≡ ReceiptState.prepared)
        × (some v.final_event_sha256 ≡ prepared.event_sha256))
      ⊎ ((event : ReceiptEvent) × (others : List ReceiptEvent) × (rest ≡ event ∷ others)
          × (v.complete ≡ true)
          × Continues S prepared event
          × (v.final_state ≡ event.state)
          × (some v.final_event_sha256 ≡ event.event_sha256))

pub reported :
    (prepared last : ReceiptEvent) (count : ℕ) {v : ReceiptVerification}
    → report prepared last count ≡ ok v
    → (final_hash : String) × (last.event_sha256 ≡ some final_hash)
      × (v ≡ verification prepared last count final_hash)
unfolding report
reported prepared last count run =
    let (final_hash, stored, result) = >>=-eq-ok _ _ run in
    (final_hash, ok_or-eq-ok _ _ stored, sym (ok-injective result))

-- A receipt that `verify_events` accepts starts with a sealed prepared event, which stands alone or
-- is continued by a sealed terminal event of the same receipt, plan and SQL file that names its
-- hash; the report says which, with the state and the hash of the last event.
pub verify_events-Reports :
    (S : System) (events : List ReceiptEvent) (v : ReceiptVerification)
    → verify_events S events ≡ ok v
    → Reports S events v
unfolding verify_events verification
verify_events-Reports S [] v run = cc
verify_events-Reports S (prepared ∷ []) v run =
    let (_, first, run₁) = >>=-eq-ok (check_prepared S prepared) _ run in
    let (h, stored, e) = reported prepared prepared 1 run₁ in
    let ok_first = check_prepared-IsPrepared S prepared first in
    record {
      prepared = prepared;
      rest = [];
      starts = refl;
      is_prepared = ok_first;
      same_plan = ap (λ (x : ReceiptVerification). x.plan_sha256) e;
      same_receipt = ap (λ (x : ReceiptVerification). x.receipt_id) e;
      ends = inl (
        refl,
        ap (λ (x : ReceiptVerification). x.complete) e,
        ap (λ (x : ReceiptVerification). x.final_state) e ∙ ok_first.prepared,
        ap (λ (x : ReceiptVerification). some x.final_event_sha256) e ∙ sym stored,
      );
    }
verify_events-Reports S (prepared ∷ event ∷ others) v run =
    let (_, first, run₁) = >>=-eq-ok (check_prepared S prepared) _ run in
    let (_, second, run₂) = >>=-eq-ok (check_final S prepared event) _ run₁ in
    let (h, stored, e) = reported prepared event 2 run₂ in
    record {
      prepared = prepared;
      rest = event ∷ others;
      starts = refl;
      is_prepared = check_prepared-IsPrepared S prepared first;
      same_plan = ap (λ (x : ReceiptVerification). x.plan_sha256) e;
      same_receipt = ap (λ (x : ReceiptVerification). x.receipt_id) e;
      ends = inr (
        event,
        others,
        refl,
        ap (λ (x : ReceiptVerification). x.complete) e,
        check_final-Continues S prepared event second,
        ap (λ (x : ReceiptVerification). x.final_state) e,
        ap (λ (x : ReceiptVerification). some x.final_event_sha256) e ∙ sym stored,
      );
    }
