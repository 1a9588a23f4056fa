-- ===== src/Engine/Unchanged.antt =====
-- From `create_plan` to a committed `apply_plan`, both in src/engine.rs: what was planned is what is
-- changed.
use dmlpact.Base.{String, Option, some, ◌≡◌}
use dmlpact.Model.{Plan, ApplyResult}
use dmlpact.System.{System, Trace}
use dmlpact.Integrity.Collision.{Collision, DigestIsBytes}
use dmlpact.Sql.Document.{analyzed}
use dmlpact.Db.Evidence.{database_identity}
use dmlpact.Engine.Planning.{PlanOptions}
use dmlpact.Engine.Planning.Made.{IsMade}
use dmlpact.Engine.Apply.{ApplyOptions}
use dmlpact.Engine.Apply.Outcome.{after_count}
use dmlpact.Engine.Apply.Order.{Commits}

-- Between the plan and the statement nothing has changed: not the SQL text, not the session, not the
-- evidence on the table, and not the rows that the statement is about, which were listed last under
-- the table lock.
pub record Unchanged {S : System} {options : PlanOptions} {applying : ApplyOptions}
    {before after start end : Trace} {plan : Plan} {r : ApplyResult}
    (made : IsMade S options before after plan) (done : Commits S applying start end r)
    : Type 0 where
  pub same_text : made.raw ≡ done.accepted.raw
  pub same_analysis : made.analyzed ≡ done.analyzed
  pub same_identity :
      (database_identity S made.sound.endpoint made.sound.identity_moment).0
      ≡ (database_identity S done.sent.endpoint done.sent.moment).0
  pub same_evidence :
      S.evidence_json made.gathered.evidence
      ≡ S.evidence_json done.sent.authorised.table_matches.evidence
  pub same_rows :
      (query : String)
      → made.analyzed.target_rows_sql ≡ some query
      → S.target_rows made.sound.rows_moment query
        ≡ S.target_rows
            (after_count S done.plan done.analyzed done.sent.endpoint done.sent.moment)
            query

module _ (S : System) where
  module _ (bytes : DigestIsBytes S) {options : PlanOptions} {applying : ApplyOptions}
      {before after start end : Trace} {plan : Plan} {r : ApplyResult}
      (made : IsMade S options before after plan) (done : Commits S applying start end r)
      (same : done.plan ≡ plan) where
    abbrev rows_later : Trace
    rows_later = after_count S done.plan done.analyzed done.sent.endpoint done.sent.moment

    abbrev SameRows : Type 0
    SameRows =
        (query : String)
        → made.analyzed.target_rows_sql ≡ some query
        → S.target_rows made.sound.rows_moment query ≡ S.target_rows rows_later query
