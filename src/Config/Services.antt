-- ===== src/Config/Services.antt =====
-- The `Init` methods of internal/bootstrap/config/config.go, which make the Polaris context and the
-- services, with internal/debugger/server.go, pkg/polaris/client.go, and `New` of
-- internal/mesh/mtls/agent.go.
use polaris_sidecar.Config.{LocationProvider, SidecarConfig}
use polaris_sidecar.Config.Env.{Env}
use polaris_sidecar.Config.Wiring.{is_mesh_metrics_enabled, is_mesh_mtls_enabled}
use polaris_sidecar.Mesh.CaClient.{CaClient, new_client}
use polaris_sidecar.Mesh.Options.{MtlsOption, OptionError, ServiceAccount, init_option}
use polaris_sidecar.Mesh.Rotator.{Rotator}
use polaris_sidecar.Prelude.{
  Bool, List, Option, Outcome, [], done, false, if◌then◌else◌, inl, inr, is_empty, none, not, panic,
  some, true, ◌&&◌, ◌++◌, ◌>>=◌, ◌∷◌, ◌⊎◌,
}
use polaris_sidecar.Prelude.Int.{pos, ℤ}
use polaris_sidecar.Prelude.Sets.{member}
use polaris_sidecar.Prelude.Text.{Str, codes, str_eq}
use polaris_sidecar.Resolver.Server.{Server}

-- `polaris.Config` and `polaris.Metrics`, whose other fields are only passed on.
pub record PolarisMetrics : Type 0 where
  pub ip : Str
  pub port : ℤ

pub record PolarisApiConfig : Type 0 where
  pub addresses : List Str
  pub metrics : Option PolarisMetrics
  pub location : Option (List LocationProvider)
  pub nearby_match_level : Str

unfoldable pub polaris_api_config : SidecarConfig → PolarisApiConfig
unfolding is_mesh_metrics_enabled
polaris_api_config s = record {
  addresses = s.polaris_config.addresses;
  metrics =
      if is_mesh_metrics_enabled s
      then some (record { ip = s.bind; port = s.mesh_config.metrics.port })
      else none;
  location = s.polaris_config.location;
  nearby_match_level = s.polaris_config.nearby_match_level;
}

-- What is set in the configuration of polaris-go; `none` leaves its default.
pub record SdkConfig : Type 0 where
  pub addresses : List Str
  pub circuit_breaker : Bool
  pub stat_reporter : Option PolarisMetrics
  pub location : Option (List LocationProvider)
  pub match_level : Option Str

unfoldable pub sdk_config : PolarisApiConfig → SdkConfig
sdk_config conf = record {
  addresses = conf.addresses;
  circuit_breaker = false;
  stat_reporter = conf.metrics;
  location = conf.location;
  match_level = if is_empty conf.nearby_match_level then none else some conf.nearby_match_level;
}

-- `InitPolarisContext`: the context, if there is one, is known by its configuration. `new_context`
-- tells whether `NewSDKContextByConfig` succeeds.
unfoldable pub init_polaris_context :
    (SdkConfig → Bool) → PolarisApiConfig → Option SdkConfig → Option SdkConfig × Bool
unfolding sdk_config
init_polaris_context new_context conf (some context) = (some context, true)
init_polaris_context new_context conf none =
    if new_context (sdk_config conf) then (some (sdk_config conf), true) else (none, false)

-- `DebugServer`: the patterns that its mux has.
pub record DebugServer : Type 0 where
  pub bind : Str
  pub port : ℤ
  pub patterns : List Str

-- `mux.HandleFunc` panics on a pattern that is registered.
unfoldable pub handle_func : Str → List Str → Outcome (List Str)
handle_func path patterns = if member path patterns then panic else done (path ∷ patterns)

-- `RegisterDebugHandler`, by the paths of the handlers; one without a path is skipped.
unfoldable pub register_debug_handler : List Str → List Str → Outcome (List Str)
unfolding handle_func
register_debug_handler [] patterns = done patterns
register_debug_handler (path ∷ paths) patterns =
    if is_empty path
    then register_debug_handler paths patterns
    else (handle_func path patterns >>= register_debug_handler paths)

-- `Debugger` of the server; both resolvers have no handler.
abbrev debugger_of : Str → List Str
debugger_of name = []

unfoldable pub debug_handlers : List Str → List Str
debug_handlers [] = []
debug_handlers (name ∷ names) = debugger_of name ++ debug_handlers names

unfoldable pub init_debug_server : SidecarConfig → Server → Outcome (Option DebugServer)
unfolding register_debug_handler debug_handlers
init_debug_server s dns_server = if not s.debugger.enable then done none else do
  patterns ← register_debug_handler (debug_handlers dns_server.resolvers) []
  done (some (record { bind = s.bind; port = s.debugger.port; patterns = patterns }))

abbrev pub own_paths : List Str
own_paths =
    codes "/sidecar/health/readiness"
    ∷ codes "/sidecar/health/liveness"
    ∷ codes "/debug/pprof/"
    ∷ codes "/debug/pprof/cmdline"
    ∷ codes "/debug/pprof/profile"
    ∷ codes "/debug/pprof/symbol"
    ∷ codes "/debug/pprof/trace"
    ∷ []

-- The patterns that `Run` of the debug server adds, once it listens.
unfoldable pub run_patterns : DebugServer → Outcome (List Str)
unfolding register_debug_handler
run_patterns svr = register_debug_handler own_paths svr.patterns

pub record MetricServer : Type 0 where
  pub namespace : Str
  pub port : ℤ

unfoldable pub init_mesh_metrics : SidecarConfig → Option MetricServer
unfolding is_mesh_metrics_enabled
init_mesh_metrics s =
    if not (is_mesh_metrics_enabled s)
    then none
    else some (record { namespace = s.namespace; port = s.mesh_config.metrics.port })

-- The agent of mutual TLS: `init` completes the options, and the client is made for the
-- server of the options.
pub record MtlsAgent : Type 0 where
  pub network : Str
  pub addr : Str
  pub rotator : Rotator
  pub option : MtlsOption
  pub client : CaClient

pub data AgentError : Type 0 where
  bad_option : OptionError → AgentError
  no_socket_dir bad_client : AgentError

abbrev pub only_server : Str → MtlsOption
only_server ca_server = record {
  network = [];
  address = [];
  cryptomb_poll_delay = pos 0;
  rotate_period = pos 0;
  failed_retry_delay = pos 0;
  namespace = [];
  service_account = [];
  ca_server = ca_server;
  rsa_key_bits = pos 0;
  ttl = pos 0;
}

-- The environment, `time.ParseDuration`, the service account of the token, whether the directory of
-- an address can be made, whether the root certificates can be read, the scheme of a URL, and the
-- token of the service account.
pub record MtlsHost : Type 0 where
  pub env : Env
  pub parse_duration : Str → Option ℤ
  pub account : Option ServiceAccount
  pub mkdir : Str → Bool
  pub root_certs : Bool
  pub scheme : Str → Option Str
  pub sat : Str

module _ (host : MtlsHost) where
  -- `NewWithRootCA`
  unfoldable pub new_with_root_ca : Str → Option CaClient
  unfolding new_client
  new_with_root_ca endpoint =
      if not host.root_certs
      then none
      else elim (new_client host.scheme host.sat endpoint host.sat) [
        | inr e ↦ none
        | inl client ↦ some client
      ]

  unfoldable pub make_agent : MtlsOption → MtlsAgent ⊎ AgentError
  unfolding new_with_root_ca
  make_agent opt =
      if str_eq opt.network (codes "unix") && not (host.mkdir opt.address)
      then inr no_socket_dir
      else elim (new_with_root_ca opt.ca_server) [
        | none ↦ inr bad_client
        | some client ↦ inl (record {
          network = opt.network;
          addr = opt.address;
          rotator = record { period = opt.rotate_period; retry_delay = opt.failed_retry_delay };
          option = opt;
          client = client;
        })
      ]

  unfoldable pub new_agent : MtlsOption → MtlsAgent ⊎ AgentError
  unfolding make_agent init_option
  new_agent opt = elim (init_option host.env host.parse_duration host.account opt) [
    | inr e ↦ inr (bad_option e)
    | inl opt' ↦ make_agent opt'
  ]

  -- `InitMeshMtls`, with the agent that was made or its error.
  unfoldable pub found_agent : MtlsAgent ⊎ AgentError → Option MtlsAgent ⊎ AgentError
  found_agent (inr e) = inr e
  found_agent (inl a) = inl (some a)

  unfoldable pub init_mesh_mtls : SidecarConfig → Option MtlsAgent ⊎ AgentError
  unfolding is_mesh_mtls_enabled new_agent found_agent
  init_mesh_mtls s =
      if not (is_mesh_mtls_enabled s)
      then inl none
      else found_agent (new_agent (only_server s.mesh_config.mtls.ca_server))
