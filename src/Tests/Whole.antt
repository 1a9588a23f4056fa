-- ===== src/Tests/Whole.antt =====
-- A plan that is made and applied in one small outside, and what its hashes pin down.
use dmlpact.Base.{String, Option, none, some, true, arith, List, [], ◌∷◌, ◌≡◌, refl, ◌⊎◌}
use dmlpact.Base.Text.{Bytes}
use dmlpact.Error.{AppResult, ok, err}
use dmlpact.Model.{TableEvidence}
use dmlpact.Sql.File.{read_and_analyze}
use dmlpact.Sql.Forms.{AnalyzedSql}
use dmlpact.System.{System, Trace, affected}
use dmlpact.System.Monad.{◌>>=◌, ask_or, lift, pure, refuse_if}
use dmlpact.Integrity.Collision.{Collision, DigestIsBytes}
use dmlpact.Engine.Target.{target_set_sha256}
use dmlpact.Engine.Target.Frames.{IsFramed, collect_evidence-IsFramed}
use dmlpact.Engine.Target.{collect_evidence}
use dmlpact.Engine.Target.Drift.{target_set_sha256-Collision}
use dmlpact.Engine.Unchanged.{Unchanged}
use dmlpact.Db.Names.{canonical_table}
use dmlpact.Db.Names.Quoting.{canonical_table-injective}
use dmlpact.Tests.World.{no_analyzed}
use dmlpact.Tests.Succeeding.{no_evidence}
use dmlpact.Tests.Runs.{applier, value_of}

abbrev outside : System
outside = applier (affected 2) true

short_digest : DigestIsBytes outside
short_digest bytes = (omega arith, tt)

abbrev update_analyzed : AnalyzedSql
update_analyzed = value_of no_analyzed (read_and_analyze outside "a.sql" [])

abbrev row_query : String
row_query = elim update_analyzed.target_rows_sql [ none ↦ "" | some query ↦ query ]

abbrev hash_run : AppResult String × Trace
hash_run = target_set_sha256 outside update_analyzed 2 []

target_set_sha256-Collision_example :
    (outside.target_rows [] row_query ≡ outside.target_rows hash_run.1 row_query)
    ⊎ Collision outside
unfolding read_and_analyze target_set_sha256 ◌>>=◌ ask_or lift pure refuse_if
target_set_sha256-Collision_example =
    target_set_sha256-Collision outside short_digest update_analyzed row_query
      (value_of "" hash_run) 2 2 [] hash_run.1 hash_run.1
      (target_set_sha256 outside update_analyzed 2 hash_run.1).1 refl refl refl

abbrev rows : List (Option String)
rows = some "{1}" ∷ some "é" ∷ []

abbrev buffer : Bytes
buffer = elim (collect_evidence rows [] 0) [ ok (out, n) ↦ out | err e ↦ [] ]

collect_evidence-IsFramed_example : IsFramed rows [] buffer
unfolding collect_evidence
collect_evidence-IsFramed_example = collect_evidence-IsFramed rows [] 0 2 buffer (omega arith) refl

abbrev quoted : TableEvidence
quoted = record no_evidence { schema = "s"; table = "a\".\"b" }

canonical_table-injective_example : (quoted.schema ≡ "s") × (quoted.table ≡ "a\".\"b")
unfolding canonical_table
canonical_table-injective_example =
    canonical_table-injective quoted (record no_evidence { schema = "s"; table = "a\".\"b" }) refl
