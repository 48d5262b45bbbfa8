-- ===== src/Mesh/Options.antt =====
-- The options of the mutual TLS agent: internal/mesh/mtls/option.go. Durations are nanoseconds.
pub mod Detected
use polaris_sidecar.Config.Env.{Env, atoi, or_default}
use polaris_sidecar.Prelude.{
  Bool, Option, [], false, if◌then◌else◌, inl, inr, is_empty, none, not, some, true, ◌&&◌, ◌++◌,
  ◌==◌, ◌||◌, ◌∷◌, ◌⊎◌,
}
use polaris_sidecar.Prelude.Int.{is_zero, pos, ℤ}
use polaris_sidecar.Prelude.Text.{Str, codes, to_lower}

pub record MtlsOption : Type 0 where
  pub network : Str
  pub address : Str
  pub cryptomb_poll_delay : ℤ
  pub rotate_period : ℤ
  pub failed_retry_delay : ℤ
  pub namespace : Str
  pub service_account : Str
  pub ca_server : Str
  pub rsa_key_bits : ℤ
  pub ttl : ℤ

pub record ServiceAccount : Type 0 where
  pub namespace : Str
  pub account_name : Str

pub data OptionError : Type 0 where
  no_service_account no_ca_server : OptionError

unfoldable pub has_prefix : Str → Str → Bool
has_prefix s [] = true
has_prefix [] (p ∷ ps) = false
has_prefix (c ∷ s) (p ∷ ps) = c == p && has_prefix s ps

abbrev pub http : Str
http = codes "http://"

abbrev pub https : Str
https = codes "https://"

-- The server has a scheme, in any case.
unfoldable pub has_scheme : Str → Bool
unfolding has_prefix
has_scheme ca_server = has_prefix (to_lower ca_server) http || has_prefix (to_lower ca_server) https

unfoldable pub add_scheme : Str → Str
unfolding has_scheme
add_scheme ca_server = if has_scheme ca_server then ca_server else http ++ ca_server

abbrev pub or_text : Str → Str → Str
or_text s t = if is_empty s then t else s

-- `parse_duration` is `time.ParseDuration`, and `account` what `loadServiceAccount` gives.
module _ (env : Env) (parse_duration : Str → Option ℤ) (account : Option ServiceAccount) where
  unfoldable pub env_default_duration : Str → ℤ → ℤ → ℤ
  env_default_duration name val def =
      if not (is_zero val) then val else or_default (parse_duration (env name)) def

  unfoldable pub env_default_int : Str → ℤ → ℤ → ℤ
  env_default_int name val def = if not (is_zero val) then val else or_default (atoi (env name)) def

  -- The namespace and the account: both are read from the environment if one of them is empty,
  -- and both from the token if one still is.
  unfoldable pub detect_account : Str → Str → Option (Str × Str)
  detect_account namespace service_account =
      let ns = or_text (env (codes "KUBERNETES_NAMESPACE")) namespace in
      let sa = or_text (env (codes "KUBERNETES_SERVICE_ACCOUNT")) service_account in
      if not (is_empty namespace || is_empty service_account)
      then some (namespace, service_account)
      else if not (is_empty ns || is_empty sa)
      then some (ns, sa)
      else elim account [ none ↦ none | some a ↦ some (a.namespace, a.account_name) ]

  unfoldable pub detect_server : Str → Option Str
  unfolding add_scheme
  detect_server ca_server =
      let ca = or_text ca_server (env (codes "POLARIS_SIDECAR_MTLS_CA_SERVER")) in
      if is_empty ca then none else some (add_scheme ca)

  -- The options with what was detected.
  unfoldable pub completed : MtlsOption → Str × Str → Str → MtlsOption
  unfolding env_default_duration env_default_int
  completed opt (namespace, service_account) ca_server = record {
    network = or_text opt.network (codes "unix");
    address = or_text opt.address (codes "/tmp/polaris-sidecar/mtls/sds.sock");
    cryptomb_poll_delay =
        env_default_duration (codes "POLARIS_SIDECAR_MTLS_CRYPTO_MB_POLL_DELAY")
          opt.cryptomb_poll_delay (pos 1000000);
    rotate_period =
        env_default_duration (codes "POLARIS_SIDECAR_MTLS_ROTATE_PERIOD") opt.rotate_period
          (pos 3600000000000);
    failed_retry_delay =
        env_default_duration (codes "POLARIS_SIDECAR_MTLS_ROTATE_FAILED_RETRY_DELAY")
          opt.failed_retry_delay (pos 1000000000);
    namespace = namespace;
    service_account = service_account;
    ca_server = ca_server;
    rsa_key_bits =
        env_default_int (codes "POLARIS_SIDECAR_MTLS_KEY_BITS") opt.rsa_key_bits (pos 2048);
    ttl = env_default_duration (codes "POLARIS_SIDECAR_MTLS_CERT_TTL") opt.ttl (pos 3600000000000);
  }

  unfoldable pub with_server : MtlsOption → Str × Str → MtlsOption ⊎ OptionError
  unfolding detect_server completed
  with_server opt detected = elim (detect_server opt.ca_server) [
    | none ↦ inr no_ca_server
    | some ca_server ↦ inl (completed opt detected ca_server)
  ]

  -- `init`
  unfoldable pub init_option : MtlsOption → MtlsOption ⊎ OptionError
  unfolding detect_account with_server
  init_option opt = elim (detect_account opt.namespace opt.service_account) [
    | none ↦ inr no_service_account
    | some detected ↦ with_server opt detected
  ]
