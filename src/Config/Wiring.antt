-- ===== src/Config/Wiring.antt =====
-- Which services internal/bootstrap/config/config.go builds, and with what.
use polaris_sidecar.Config.{RlsConfig, SidecarConfig, default_rls_address}
use polaris_sidecar.Mesh.RateLimit.{RateLimitServer, init_rls, new_rls}
use polaris_sidecar.Prelude.{
  Bool, Option, [], ap, arith, drop, false, if◌then◌else◌, none, not, refl, replicate, some, take,
  true, ℕ, ◌&&◌, ◌++◌, ◌||◌, ◌∷◌, ◌≡◌,
}
use polaris_sidecar.Prelude.Text.{Str, codes, str_eq, str_eq_iff, to_lower}
use polaris_sidecar.Resolver.Dns.{Addr, tcp}
use polaris_sidecar.Resolver.Recursor.{ClientConfig, Config, init_recurse_config}

unfoldable pub is_mesh_metrics_enabled : SidecarConfig → Bool
is_mesh_metrics_enabled s = s.mesh_enabled && s.mesh_config.metrics.enable

unfoldable pub is_mesh_mtls_enabled : SidecarConfig → Bool
is_mesh_mtls_enabled s = s.mesh_enabled && s.mesh_config.mtls.enable

unfoldable pub is_mesh_ratelimit_enabled : SidecarConfig → Bool
is_mesh_ratelimit_enabled s = s.mesh_enabled && s.mesh_config.rate_limit.enable

-- `net.IP.IsLoopback` and `IsUnspecified` on the 16 bytes that `ParseIP` gives; nil is `[]`.
v4_prefix : Addr
v4_prefix = replicate 10 0 ++ 255 ∷ 255 ∷ []

unfoldable pub is_loopback : Addr → Bool
unfolding v4_prefix
is_loopback ip =
    if str_eq (take 12 ip) v4_prefix
    then str_eq (take 1 (drop 12 ip)) (127 ∷ [])
    else str_eq ip (replicate 15 0 ++ 1 ∷ [])

unfoldable pub is_unspecified : Addr → Bool
unfolding v4_prefix
is_unspecified ip = str_eq ip (v4_prefix ++ 0 ∷ 0 ∷ 0 ∷ 0 ∷ []) || str_eq ip (replicate 16 0)

module _ (parse_ip : Str → Addr) where
  unfoldable pub is_bind_localhost : SidecarConfig → Bool
  unfolding is_loopback is_unspecified
  is_bind_localhost s = is_loopback (parse_ip s.bind) || is_unspecified (parse_ip s.bind)

  -- The fallback that `InitDnsResolver` passes to `NewServer`; `none` is an error.
  unfoldable pub recurse_proxy_conf :
      Bool → Option ClientConfig → SidecarConfig → Option (Option Config)
  unfolding is_bind_localhost
  recurse_proxy_conf is_file client_config s =
      if s.recurse.enable
      then init_recurse_config is_file client_config (is_bind_localhost s) s.recurse.timeout_sec
          s.recurse.name_servers
      else some none

-- `InitMeshRatelimit`; `join` prints an address and a port with a colon between.
unfoldable pub init_mesh_ratelimit : (Str → ℕ → Str) → SidecarConfig → Option RateLimitServer
unfolding is_mesh_ratelimit_enabled
init_mesh_ratelimit join s =
    let network = to_lower s.mesh_config.rate_limit.network in
    if not (is_mesh_ratelimit_enabled s)
    then none
    else new_rls s.namespace (
        some (record {
          enable = false;
          network = network;
          address =
              if str_eq network tcp then join s.bind s.mesh_config.rate_limit.bind_port else [];
          bind_port = 0;
          tls_info = s.mesh_config.rate_limit.tls_info;
        }))

-- The configuration that the server gets.
abbrev rls_conf : (Str → ℕ → Str) → SidecarConfig → RlsConfig
rls_conf join s = record {
  enable = false;
  network = to_lower s.mesh_config.rate_limit.network;
  address =
      if str_eq (to_lower s.mesh_config.rate_limit.network) tcp
      then join s.bind s.mesh_config.rate_limit.bind_port
      else [];
  bind_port = 0;
  tls_info = s.mesh_config.rate_limit.tls_info;
}

ratelimit-on :
    (join : Str → ℕ → Str) (s : SidecarConfig)
    → is_mesh_ratelimit_enabled s ≡ true
    → init_mesh_ratelimit join s ≡ new_rls s.namespace (some (rls_conf join s))
unfolding init_mesh_ratelimit
ratelimit-on join s h = rw h

no_unix : (n : Str) → str_eq n tcp ≡ true → str_eq n (codes "unix") ≡ false
unfolding str_eq
no_unix n h = ap (λ t. str_eq t (codes "unix")) ((str_eq_iff n tcp).0 h)

no_tcp : (n : Str) → str_eq n (codes "unix") ≡ true → str_eq n tcp ≡ false
unfolding str_eq
no_tcp n h = ap (λ t. str_eq t tcp) ((str_eq_iff n (codes "unix")).0 h)

unix_address :
    (join : Str → ℕ → Str) (s : SidecarConfig)
    → str_eq (to_lower s.mesh_config.rate_limit.network) (codes "unix") ≡ true
    → (init_rls (rls_conf join s)).address ≡ default_rls_address
unfolding init_rls
unix_address join s h = rw (h, no_tcp _ h)

tcp_address :
    (join : Str → ℕ → Str) (s : SidecarConfig)
    → str_eq (to_lower s.mesh_config.rate_limit.network) tcp ≡ true
    → (init_rls (rls_conf join s)).address ≡ join s.bind s.mesh_config.rate_limit.bind_port
unfolding init_rls
tcp_address join s h = rw (h, no_unix _ h)

-- A rate limit server that listens on a socket listens on the default one, whatever address is
-- configured; over TCP it listens where the DNS server does, on its own port. It is built only
-- where the mesh resolver is enabled.
pub init_mesh_ratelimit_lem :
    (join : Str → ℕ → Str) (s : SidecarConfig)
    → is_mesh_ratelimit_enabled s ≡ true
    → (svr : RateLimitServer) × (init_mesh_ratelimit join s ≡ some svr)
      × (s.mesh_enabled ≡ true)
      × (svr.namespace ≡ s.namespace)
      × (str_eq (to_lower s.mesh_config.rate_limit.network) (codes "unix") ≡ true
          → svr.conf.address ≡ default_rls_address)
      × (str_eq (to_lower s.mesh_config.rate_limit.network) tcp ≡ true
          → svr.conf.address ≡ join s.bind s.mesh_config.rate_limit.bind_port)
unfolding new_rls is_mesh_ratelimit_enabled
init_mesh_ratelimit_lem join s h = (
  record {
    namespace = s.namespace;
    conf = init_rls (rls_conf join s);
    limiter = false;
    grpc_svr = false;
    listener = false;
    once = false;
  },
  ratelimit-on join s h,
  ground arith,
  refl,
  unix_address join s,
  tcp_address join s,
)
