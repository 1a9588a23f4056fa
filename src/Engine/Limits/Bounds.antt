-- ===== src/Engine/Limits/Bounds.antt =====
-- The limits that src/engine.rs accepts.
use dmlpact.Base.{◌≤◌, ◌≡◌, arith, ◌↔◌}
use dmlpact.Error.{ok}
use dmlpact.Model.{Limits}
use dmlpact.Engine.Limits.{validate_limits}

-- The bounds that the documentation names.
pub record AreInRange (l : Limits) : Type 0 where
  pub some_row : 1 ≤ l.max_rows
  pub at_most_a_million_rows : l.max_rows ≤ 1_000_000
  pub statement_from : 100 ≤ l.statement_timeout_ms
  pub statement_to : l.statement_timeout_ms ≤ 600_000
  pub lock_from : 1 ≤ l.lock_timeout_ms
  pub lock_to : l.lock_timeout_ms ≤ 60_000
  pub lock_within_statement : l.lock_timeout_ms ≤ l.statement_timeout_ms

accepted : (l : Limits) → validate_limits l ≡ ok tt → AreInRange l
unfolding validate_limits
accepted l h = record {
  some_row = ground arith;
  at_most_a_million_rows = ground arith;
  statement_from = ground arith;
  statement_to = ground arith;
  lock_from = ground arith;
  lock_to = ground arith;
  lock_within_statement = ground arith;
}

is_accepted : (l : Limits) → AreInRange l → validate_limits l ≡ ok tt
unfolding validate_limits
is_accepted l h =
    let a = h.some_row in
    let b = h.at_most_a_million_rows in
    let c = h.statement_from in
    let d = h.statement_to in
    let e = h.lock_from in let f = h.lock_to in let g = h.lock_within_statement in ground arith

-- `validate_limits` accepts exactly the limits within the documented bounds: 1 to 1,000,000 rows, a
-- statement timeout of 100 ms to 10 minutes, and a lock timeout of 1 ms to 1 minute that does not
-- exceed it.
pub validate_limits_iff : (l : Limits) → (validate_limits l ≡ ok tt) ↔ AreInRange l
validate_limits_iff l = (accepted l, is_accepted l)
