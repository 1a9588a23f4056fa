-- ===== src/Db/Connect/Transport.antt =====
-- How `connect_database` of src/db.rs reaches a server.
use dmlpact.Base.{String, Bool, true, false, ◌≡◌, ◌∷◌}
use dmlpact.Base.{All}
use dmlpact.Base.Text.{eq_ignore_ascii_case}
use dmlpact.Model.{TransportPolicy}
use dmlpact.System.{System, Effect, Trace, Host, IpAddr, Config}
use dmlpact.Db.Connect.{ConnectedDatabase}

-- A host on this machine: a socket of the file system, or one of three names in any case.
pub data IsLocal : Host → Type 0 where
  unix : (path : String) → IsLocal (Host.unix path)
  named : {name : String} → eq_ignore_ascii_case name "localhost" ≡ true → IsLocal (Host.tcp name)
  ipv4 : {name : String} → eq_ignore_ascii_case name "127.0.0.1" ≡ true → IsLocal (Host.tcp name)
  ipv6 : {name : String} → eq_ignore_ascii_case name "::1" ≡ true → IsLocal (Host.tcp name)

-- The address is that of a loopback interface.
abbrev pub IsLoopback : IpAddr → Type 0
IsLoopback address = address.is_loopback ≡ true

-- The connection was made with TLS, or without it to hosts that are all local.
pub data IsReached (S : System) (config : Config) (database : ConnectedDatabase) (after : Trace)
    : Bool → Type 0 where
  with_tls :
      (before : Trace)
      → database.transport_policy ≡ TransportPolicy.tls_required
      → after ≡ Effect.connect true true ∷ before
      → IsReached S config database after false
  without_tls :
      (before : Trace)
      → database.transport_policy ≡ TransportPolicy.insecure_localhost
      → All IsLocal config.hosts
      → All IsLoopback config.hostaddrs
      → after ≡ Effect.connect false true ∷ before
      → IsReached S config database after true
