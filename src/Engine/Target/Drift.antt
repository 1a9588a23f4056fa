-- ===== src/Engine/Target/Drift.antt =====
-- What an unchanged hash of the target rows tells in src/engine.rs.
use dmlpact.Base.{ℕ, String, Option, some, ◌≡◌, ap, sym, ◌∙◌, ◌⊎◌, inl, inr, List, [], map, arith}
use dmlpact.Base.Text.{Bytes}
use dmlpact.Error.{ok}
use dmlpact.System.{System, Trace}
use dmlpact.Integrity.Collision.{Collision, DigestIsBytes, same_bytes}
use dmlpact.Sql.Forms.{AnalyzedSql}
use dmlpact.Engine.Target.{target_set_sha256}
use dmlpact.Engine.Target.Counted.{target_set_sha256-IsCounted}
use dmlpact.Engine.Target.Frames.{IsFramed, collect_evidence-IsFramed, frames-injective}

module _ (S : System) where
  same_evidence :
      (rows others : List (Option String)) (evidence other : Bytes)
      → IsFramed rows [] evidence
      → IsFramed others [] other
      → evidence ≡ other
      → rows ≡ others
  same_evidence rows others evidence other framed framed' same =
      framed.all_fetched
      ∙ ap (map some) (
          frames-injective framed.values framed'.values framed.short framed'.short
            (sym framed.spelled ∙ same ∙ framed'.spelled))
      ∙ sym framed'.all_fetched

  -- If the digest gives bytes and the query that lists the target rows gets the same hash at two
  -- moments, it got the same rows in the same order, or two inputs of the digest collide.
  pub target_set_sha256-Collision :
      DigestIsBytes S
      → (analyzed : AnalyzedSql) (query hash : String) (expected expected' : ℕ)
        (t t' later later' : Trace)
      → analyzed.target_rows_sql ≡ some query
      → target_set_sha256 S analyzed expected t ≡ (ok hash, t')
      → target_set_sha256 S analyzed expected' later ≡ (ok hash, later')
      → (S.target_rows t query ≡ S.target_rows later query) ⊎ Collision S
  target_set_sha256-Collision bytes analyzed query hash expected expected' t t' later later' listed
        run run' =
      let a = target_set_sha256-IsCounted S analyzed query expected hash t t' listed run in
      let b =
        target_set_sha256-IsCounted S analyzed query expected' hash later later' listed run' in
      elim (same_bytes S bytes a.evidence b.evidence (sym a.hashed ∙ b.hashed)) [
        | inl same ↦ inl (
            a.answered
            ∙ ap some (
                same_evidence a.rows b.rows a.evidence b.evidence
                  (collect_evidence-IsFramed a.rows [] 0 expected a.evidence (omega arith)
                    a.gathered)
                  (collect_evidence-IsFramed b.rows [] 0 expected' b.evidence (omega arith)
                    b.gathered)
                  same)
            ∙ sym b.answered)
        | inr collision ↦ inr collision
      ]
