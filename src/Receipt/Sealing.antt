-- ===== src/Receipt/Sealing.antt =====
-- What a seal says: it is the hash of the other fields, and a sealed document passes its check.
use dmlpact.Base.{String, true, text_eq_self, eq_iff, not-eq-false}
use dmlpact.Base.{some, ◌≡◌, sym, ap, ◌∙◌, ||-eq-false, arith, subst}
use dmlpact.Error.{ok}
use dmlpact.Error.Pure.{>>=-eq-ok, refuse_if-eq-ok, ok_or-eq-ok}
use dmlpact.Model.{Plan, plan_schema_version, ReceiptEvent}
use dmlpact.System.{System}
use dmlpact.Integrity.{sha256_json}
use dmlpact.Receipt.Version.{is_supported_artifact_tool_version}
use dmlpact.Receipt.Seal.{
  unsigned, check_claim, seal_plan, verified_plan_sha256, event_sha256, seal_event,
}

pub check_claim-eq-ok :
    (code message claimed actual : String) {h : String}
    → check_claim code message claimed actual ≡ ok h
    → (claimed ≡ actual) × (h ≡ actual)
unfolding check_claim
check_claim-eq-ok code message claimed actual run =
    let (u, passed, rest) = >>=-eq-ok _ _ run in
    ((eq_iff claimed actual).0 (not-eq-false _ (refuse_if-eq-ok _ _ passed)), ground arith)

pub check_claim_self : (code message h : String) → check_claim code message h h ≡ ok h
unfolding check_claim
check_claim_self code message h = rw (text_eq_self h)

module _ (S : System) where
  -- The facts behind a plan that passes its check.
  pub verified_plan_sha256-eq-ok :
      (plan : Plan) {h : String}
      → verified_plan_sha256 S plan ≡ ok h
      → (plan.plan_sha256 ≡ some h)
        × (sha256_json S (S.plan_json (unsigned plan)) ≡ ok h)
        × (plan.schema_version ≡ plan_schema_version)
        × (is_supported_artifact_tool_version S.tool_version plan.tool_version ≡ true)
  unfolding verified_plan_sha256
  verified_plan_sha256-eq-ok plan run =
      let (_, versions, run₁) = >>=-eq-ok _ _ run in
      let (claimed, stored, run₂) = >>=-eq-ok _ _ run₁ in
      let (actual, hashed, run₃) = >>=-eq-ok _ _ run₂ in
      let (schema, tool) = ||-eq-false _ _ (refuse_if-eq-ok _ _ versions) in
      let (same, result) = check_claim-eq-ok _ _ claimed actual run₃ in
      (
        ok_or-eq-ok _ _ stored ∙ ap some (same ∙ sym result),
        hashed ∙ ap ok (sym result),
        (eq_iff _ _).0 (not-eq-false _ schema),
        not-eq-false _ tool,
      )

  -- The hash that a value has, if it has one.
  pub seal_event-eq-ok :
      (event : ReceiptEvent) {sealed : ReceiptEvent}
      → seal_event S event ≡ ok sealed
      → (h : String) × (event_sha256 S event ≡ ok h)
        × (sealed ≡ record event { event_sha256 = some h })
  unfolding seal_event
  seal_event-eq-ok event run =
      let (h, hashed, result) = >>=-eq-ok _ _ run in (h, hashed, ground arith)

  -- A seal adds nothing but the hash.
  pub seal_plan-eq-ok :
      (draft : Plan) {plan : Plan}
      → seal_plan S draft ≡ ok plan
      → (h : String) × (plan ≡ record draft { plan_sha256 = some h })
  unfolding seal_plan
  seal_plan-eq-ok draft run =
      let (h, hashed, result) =
        >>=-eq-ok (sha256_json S (S.plan_json (unsigned draft)))
          (λ hash. ok (record draft { plan_sha256 = some hash })) run in
      (h, ground arith)

  verified_of_hash :
      (plan : Plan) (h : String)
      → plan.schema_version ≡ plan_schema_version
      → is_supported_artifact_tool_version S.tool_version plan.tool_version ≡ true
      → sha256_json S (S.plan_json (unsigned plan)) ≡ ok h
      → verified_plan_sha256 S (record plan { plan_sha256 = some h }) ≡ ok h
  unfolding verified_plan_sha256
  verified_of_hash plan h schema tool hashed = rw (hashed, schema, tool) (check_claim_self _ _ h)

  -- Sealing a plan of this schema and of a supported version gives a plan that passes its check:
  -- nothing but the seal is new, and the check returns it.
  pub verified_plan_sha256-seal_plan :
      (plan sealed : Plan)
      → plan.schema_version ≡ plan_schema_version
      → is_supported_artifact_tool_version S.tool_version plan.tool_version ≡ true
      → seal_plan S plan ≡ ok sealed
      → (h : String) × (sealed ≡ record plan { plan_sha256 = some h })
        × (verified_plan_sha256 S sealed ≡ ok h)
  unfolding seal_plan
  verified_plan_sha256-seal_plan plan sealed schema tool run =
      let (h, hashed, result) = >>=-eq-ok _ _ run in
      let e : sealed ≡ record plan { plan_sha256 = some h } = ground arith in
      (
        h,
        e,
        subst (λ p. verified_plan_sha256 S p ≡ ok h) (sym e)
            (verified_of_hash plan h schema tool hashed),
      )
