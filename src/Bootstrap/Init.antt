-- ===== src/Bootstrap/Init.antt =====
-- initAgent of internal/bootstrap/agent.go: the configuration, the logger, the Polaris context and
-- the services are made one after the other, up to the first error.
use polaris_sidecar.Bootstrap.{Agent}
use polaris_sidecar.Config.{BootConfig, LogOptions, SidecarConfig}
use polaris_sidecar.Config.Env.{Env}
use polaris_sidecar.Config.Init.{
  Initialized, boot_failed, configured, file_failed, init_config, verify_failed,
}
use polaris_sidecar.Config.Services.{
  AgentError, DebugServer, MetricServer, MtlsAgent, MtlsHost, SdkConfig, init_debug_server,
  init_mesh_metrics, init_mesh_mtls, init_polaris_context, polaris_api_config,
}
use polaris_sidecar.Config.Wiring.{init_mesh_ratelimit, recurse_proxy_conf}
use polaris_sidecar.Log.{LogError, Options}
use polaris_sidecar.Log.Configure.{Logging, configure}
use polaris_sidecar.Log.Prepare.{Host}
use polaris_sidecar.Mesh.RateLimit.{RateLimitServer}
use polaris_sidecar.Prelude.{
  Bool, Option, Outcome, done, false, inl, inr, none, some, true, ℕ, ◌>>=◌, ◌⊎◌,
}
use polaris_sidecar.Prelude.Int.{to_u32}
use polaris_sidecar.Prelude.Text.{Str}
use polaris_sidecar.Resolver.Dns.{Addr}
use polaris_sidecar.Resolver.Plugin.{ConfigEntry}
use polaris_sidecar.Resolver.Recursor.{ClientConfig, Config}
use polaris_sidecar.Resolver.Server.{Error, ResolverConfig, Result, Server, err, new_server, ok}

-- What the code takes from its surroundings. `log_options` puts what this package knows of the
-- logger's options into the options that the file gives.
pub record Surroundings : Type 0 where
  pub merge_file : SidecarConfig → Option SidecarConfig
  pub env : Env
  pub log_options : LogOptions → Options
  pub host : Host
  pub new_context : SdkConfig → Bool
  pub parse_ip : Str → Addr
  pub is_file : Bool
  pub client_config : Option ClientConfig
  pub registered : Str → Bool
  pub initialize : ConfigEntry → Bool
  pub print_port : ℕ → Str
  pub join : Str → ℕ → Str
  pub mtls_host : MtlsHost

-- What the program keeps beside the agent.
pub record Globals : Type 0 where
  pub logging : Logging
  pub context : Option SdkConfig

pub record BuiltAgent : Type 0 where
  pub dns_resolver : Server
  pub recurse : Option Config
  pub debug_server : Option DebugServer
  pub metric_server : Option MetricServer
  pub rls_svr : Option RateLimitServer
  pub mtls_agent : Option MtlsAgent

pub data InitError : Type 0 where
  config_failed : Initialized → InitError
  logger_failed : LogError → InitError
  context_failed recurse_failed : InitError
  resolver_failed : Error → InitError
  mtls_failed : AgentError → InitError

pub data Built : Type 0 where
  built : BuiltAgent → Built
  init_failed_with : InitError → Built

module _ (env : Surroundings) where
  -- The end of `initAgent`, with what `InitMeshMtls` gives.
  unfoldable pub init_mesh :
      SidecarConfig
      → Server
      → Option Config
      → Option DebugServer
      → Option MtlsAgent ⊎ AgentError
      → Built
  unfolding init_mesh_metrics init_mesh_ratelimit
  init_mesh s svr recurse debug_server (inr e) = init_failed_with (mtls_failed e)
  init_mesh s svr recurse debug_server (inl mtls_agent) = built (record {
    dns_resolver = svr;
    recurse = recurse;
    debug_server = debug_server;
    metric_server = init_mesh_metrics s;
    rls_svr = init_mesh_ratelimit env.join s;
    mtls_agent = mtls_agent;
  })

  -- `InitDebugServer`, and what follows.
  unfoldable pub init_debug : SidecarConfig → Option Config → Result Server → Outcome Built
  unfolding init_mesh init_debug_server init_mesh_mtls
  init_debug s recurse (err e) = done (init_failed_with (resolver_failed e))
  init_debug s recurse (ok svr) = do
    debug_server ← init_debug_server s svr
    done (init_mesh s svr recurse debug_server (init_mesh_mtls env.mtls_host s))

  abbrev pub resolver_config : SidecarConfig → ResolverConfig
  resolver_config s = record {
    bind_ip = s.bind;
    bind_port = env.print_port (to_u32 s.port);
    resolvers = s.resolvers;
  }

  -- `InitDnsResolver` with its fallback, and what follows.
  unfoldable pub init_services : SidecarConfig → Option (Option Config) → Outcome Built
  unfolding init_debug
  init_services s none = done (init_failed_with recurse_failed)
  init_services s (some recurse) =
      init_debug s recurse (new_server env.registered env.initialize (resolver_config s)).0

  -- What follows `InitPolarisApi`, with the context and whether it succeeds.
  unfoldable pub init_context :
      SidecarConfig → Globals → Option SdkConfig × Bool → Outcome (Built × Globals)
  unfolding init_services
  init_context s g (context, false) =
      done (init_failed_with context_failed, record g { context = context })
  init_context s g (context, true) = do
    b ← init_services s (recurse_proxy_conf env.parse_ip env.is_file env.client_config s)
    done (b, record g { context = context })

  -- What follows `log.Configure`, with what it leaves and its error.
  unfoldable pub init_logger : SidecarConfig → Globals → Option LogError → Outcome (Built × Globals)
  unfolding init_context init_polaris_context polaris_api_config
  init_logger s g (some e) = done (init_failed_with (logger_failed e), g)
  init_logger s g none =
      init_context s g (init_polaris_context env.new_context (polaris_api_config s) g.context)

  unfoldable pub init_configured : Initialized → Globals → Outcome (Built × Globals)
  unfolding init_logger configure
  init_configured (configured s) g =
      let c = configure env.host (env.log_options s.logger) g.logging in
      init_logger s (record g { logging = c.logging }) c.error
  init_configured file_failed g = done (init_failed_with (config_failed file_failed), g)
  init_configured (boot_failed e) g = done (init_failed_with (config_failed (boot_failed e)), g)
  init_configured (verify_failed e) g = done (init_failed_with (config_failed (verify_failed e)), g)

  unfoldable pub init_agent : BootConfig → Globals → Outcome (Built × Globals)
  unfolding init_configured
  init_agent boot g = do i ← init_config env.merge_file env.env boot; init_configured i g

-- Which services of an agent are not nil.
abbrev pub is_there {ℓ} : {A : Type ℓ} → Option A → Bool
is_there none = false
is_there (some a) = true

abbrev pub agent_of : BuiltAgent → Agent
agent_of b = record {
  debug_server = is_there b.debug_server;
  dns_resolver = true;
  mtls_agent = is_there b.mtls_agent;
  metric_server = is_there b.metric_server;
  rls_svr = is_there b.rls_svr;
}
