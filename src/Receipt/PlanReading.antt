-- ===== src/Receipt/PlanReading.antt =====
-- A plan that `write_plan_new` of src/receipt.rs has written, `read_plan` reads again.
use dmlpact.Base.{
  ◌≤◌, String, true, ◌≡◌, refl, ap, sym, ◌∙◌, subst, some, [], ◌∷◌, ◌++◌, length, not_lt→ltb,
}
use dmlpact.Base.Text.{Bytes, as_bytes}
use dmlpact.Error.{AppResult, ok}
use dmlpact.Model.{Plan}
use dmlpact.System.{System, Effect, Trace, Metadata}
use dmlpact.System.Monad.{pure}
use dmlpact.System.Steps.{step, lifted, asked, not_refused}
use dmlpact.Receipt.Version.{max_plan_bytes}
use dmlpact.Receipt.Seal.{verified_plan_sha256}
use dmlpact.Receipt.PlanFile.{read_plan, write_plan_new}
use dmlpact.Receipt.PlanWriting.{WrotePlan, write_plan_new-WrotePlan}
use dmlpact.System.Rules.{changes}

-- The bytes that were written last.
abbrev last_written : Trace → Bytes
last_written (Effect.write_file _ bytes _ ∷ t) = bytes
last_written _ = []

module _ (S : System) where
  -- The file at the path is regular and has these bytes, looked at first and read next.
  pub record HoldsBytes (t : Trace) (path : String) (bytes : Bytes) : Type 0 where
    pub found : Metadata
    pub looked_up : S.metadata t path ≡ some found
    pub regular : found.is_file ≡ true
    pub size : found.len ≡ length bytes
    pub read : S.read (Effect.read_metadata path ∷ t) path ≡ some bytes

  -- The strict reader gives the plan back from its line.
  abbrev pub PlanReadsBack : Plan → Type 0
  PlanReadsBack plan =
      (text : String)
      → S.plan_json_pretty plan ≡ some text
      → S.parse_plan (as_bytes text ++ (10 ∷ [])) ≡ some plan

  read_held :
      (path : String) (plan : Plan) (hash : String) (bytes : Bytes) (t : Trace)
      → verified_plan_sha256 S plan ≡ ok hash
      → S.parse_plan bytes ≡ some plan
      → length bytes ≤ max_plan_bytes
      → HoldsBytes t path bytes
      → (read_plan S path t).0 ≡ ok plan
  unfolding read_plan pure
  read_held path plan hash bytes t verified parsed fits held =
      ap (λ (p : AppResult Plan × Trace). p.0)
        (step _ _ t (asked _ _ _ t held.looked_up) (
          step _ _ _
            (not_refused _ _ _
              (rw (held.regular, held.size) (not_lt→ltb max_plan_bytes (length bytes) fits)))
            (step _ _ _ (asked _ _ _ _ held.read) (
              step _ _ _ (not_refused _ _ _ (not_lt→ltb max_plan_bytes (length bytes) fits))
                (step _ _ _ (lifted _ (rw parsed refl)) (step _ _ _ (lifted _ verified) refl))))))

  -- If `write_plan_new` succeeds, the bytes that it has written are, in a later file of at most
  -- 1 MiB at any path, read by `read_plan` as the plan, provided that the parser reads the plan's
  -- line back.
  pub read_plan-write_plan_new :
      (path other : String) (plan : Plan) (bytes : Bytes) (t t' u : Trace)
      → write_plan_new S path plan t ≡ (ok tt, t')
      → PlanReadsBack plan
      → changes t' ≡ Effect.write_file path bytes true ∷ Effect.create_file path true ∷ changes t
      → length bytes ≤ max_plan_bytes
      → HoldsBytes u other bytes
      → (read_plan S other u).0 ≡ ok plan
  read_plan-write_plan_new path other plan bytes t t' u run back wrote fits held =
      let ((hash, verified), (written, line, order)) =
        subst (WrotePlan S path plan (changes t)) run
          (write_plan_new-WrotePlan S path plan (changes t) t refl).run in
      let same : written ≡ bytes = ap last_written (sym order ∙ wrote) in
      read_held other plan hash bytes u verified
        (ap S.parse_plan (sym same ∙ line.spelled) ∙ back line.text line.serialised) fits held
