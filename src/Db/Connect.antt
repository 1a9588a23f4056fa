-- ===== src/Db/Connect.antt =====
-- The connection of src/db.rs: TLS, or plaintext to hosts that are all local.
pub mod Transport
use dmlpact.Base.{
  ℕ, String, ◌<>◌, Bool, true, false, not, ◌&&◌, ◌||◌, Option, none, some, List, map,
}
use dmlpact.Base.{all, ltb, len, text_eq, if◌then◌else◌}
use dmlpact.Base.Text.{as_bytes, show, join, eq_ignore_ascii_case}
use dmlpact.Error.{app_error, io, usage, policy}
use dmlpact.Error.Pure.{ok_or}
use dmlpact.Model.{TransportPolicy}
use dmlpact.System.{System, Effect, Host, IpAddr, Config}
use dmlpact.System.Monad.{M, ◌>>=◌, ◌>>◌, pure, lift, attempt, ask_or, refuse_if}
use dmlpact.Integrity.{sha256_bytes}
use dmlpact.Db.Names.{is_valid_environment_name, database_error}

abbrev pub max_connection_value_bytes : ℕ
max_connection_value_bytes = 16_384

-- The session itself is the trace.
pub record ConnectedDatabase : Type 0 where
  pub transport_policy : TransportPolicy
  pub endpoint_sha256 : String

unfoldable pub is_local_host : Host → Bool
unfolding eq_ignore_ascii_case
is_local_host (Host.tcp hostname) =
    eq_ignore_ascii_case hostname "localhost"
    || eq_ignore_ascii_case hostname "127.0.0.1"
    || eq_ignore_ascii_case hostname "::1"
is_local_host (Host.unix _) = true

unfoldable pub all_hosts_are_local : Config → Bool
unfolding is_local_host
all_hosts_are_local config =
    all is_local_host config.hosts
    && all (λ (address : IpAddr). address.is_loopback) config.hostaddrs

host_text : Host → String
host_text (Host.tcp hostname) = "tcp:" <> hostname
host_text (Host.unix path) = "unix:" <> path

text_or_empty : Option String → String
text_or_empty none = ""
text_or_empty (some s) = s

unfoldable pub endpoint_text : Config → String
unfolding host_text text_or_empty join show
endpoint_text config =
    "hosts="
    <> (join "\n" (map host_text config.hosts)
        <> ("\naddresses="
            <> (join "\n" (map (λ (address : IpAddr). address.to_string) config.hostaddrs)
                <> ("\nports="
                    <> (join "," (map show config.ports)
                        <> ("\nuser="
                            <> (text_or_empty config.user
                                <> ("\ndatabase=" <> text_or_empty config.dbname))))))))

module _ (S : System) where
  unfoldable pub endpoint_sha256 : Config → String
  unfolding endpoint_text sha256_bytes as_bytes
  endpoint_sha256 config = sha256_bytes S (as_bytes (endpoint_text config))

  -- The branch with `--allow-insecure-localhost`.
  unfoldable pub connect_insecure : Config → M ConnectedDatabase
  unfolding all_hosts_are_local endpoint_sha256
  connect_insecure config = do
    refuse_if (not (all_hosts_are_local config)) (
        app_error policy "insecure_remote_denied"
          "--allow-insecure-localhost is valid only for loopback or Unix-socket connections")
    attempt (Effect.connect false) (λ t. S.connect_to t config false)
        (database_error "connect_failed")
    pure (record {
      transport_policy = TransportPolicy.insecure_localhost;
      endpoint_sha256 = endpoint_sha256 config;
    })

  -- The branch with TLS.
  unfoldable pub connect_tls : Config → M ConnectedDatabase
  unfolding endpoint_sha256
  connect_tls config = do
    attempt (λ _. Effect.load_certificates) S.native_certs
        (app_error io "native_certificates_unavailable"
          "no usable native TLS root certificates were found")
    attempt (Effect.connect true) (λ t. S.connect_to t config true)
        (database_error "tls_connect_failed")
    pure (record {
      transport_policy = TransportPolicy.tls_required;
      endpoint_sha256 = endpoint_sha256 config;
    })

  unfoldable pub connect_database : String → Bool → M ConnectedDatabase
  unfolding is_valid_environment_name connect_insecure connect_tls
  connect_database environment_name allow_insecure_localhost = do
    refuse_if (not (is_valid_environment_name environment_name)) (
        app_error usage "database_env_name_invalid"
          "the database environment variable name is invalid")
    connection_value ←
        ask_or (Effect.read_variable environment_name) (λ t. S.env_var t environment_name)
          (app_error usage "database_env_missing"
            ("database connection environment variable " <> (environment_name <> " is not set")))
    refuse_if (ltb max_connection_value_bytes (len connection_value)) (
        app_error usage "database_env_too_large"
          "the database connection value exceeds the 16 KiB contract limit")
    config ← lift (
        ok_or (S.parse_config connection_value)
          (app_error usage "database_config_invalid" "the database connection value is invalid"))
    if allow_insecure_localhost then connect_insecure config else connect_tls config
