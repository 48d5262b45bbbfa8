-- ===== src/Bootstrap/Built.antt =====
-- What initAgent of internal/bootstrap/agent.go has made when it succeeds.
use polaris_sidecar.Bootstrap.Init.{
  Built, BuiltAgent, InitError, Surroundings, built, init_debug, init_failed_with, init_mesh,
  init_services, is_there, resolver_config,
}
use polaris_sidecar.Config.{SidecarConfig}
use polaris_sidecar.Config.Services.{
  AgentError, DebugServer, MtlsAgent, MtlsHost, debug_handlers, found_agent, init_debug_server,
  init_mesh_metrics, init_mesh_mtls, register_debug_handler,
}
use polaris_sidecar.Config.Wiring.{
  init_mesh_ratelimit, is_mesh_metrics_enabled, is_mesh_mtls_enabled, is_mesh_ratelimit_enabled,
  recurse_proxy_conf,
}
use polaris_sidecar.Mesh.RateLimit.{new_rls}
use polaris_sidecar.Prelude.{
  Bool, Bool-cases, List, Option, Outcome, [], ap, arith, done, false, if◌then◌else◌, inl, inr,
  none, not, of_done, panic, refl, some, sym, true, ℕ, ◌>>=◌, ◌∙◌, ◌∷◌, ◌≡◌, ◌≢◌, ◌⊎◌,
}
use polaris_sidecar.Prelude.Text.{Str}
use polaris_sidecar.Resolver.Recursor.{Config}
use polaris_sidecar.Resolver.Server.{Result, Server, err, new_server, ok}

of_built : (a b : BuiltAgent) → built a ≡ built b → a ≡ b
of_built a b h = cc

of_inl : (a b : Option MtlsAgent) → ◌≡◌ {A = Option MtlsAgent ⊎ AgentError} (inl a) (inl b) → a ≡ b
of_inl a b h = cc

metrics_there : (s : SidecarConfig) → is_there (init_mesh_metrics s) ≡ is_mesh_metrics_enabled s
unfolding init_mesh_metrics
metrics_there s = ground arith

ratelimit_there :
    (join : Str → ℕ → Str) (s : SidecarConfig)
    → is_there (init_mesh_ratelimit join s) ≡ is_mesh_ratelimit_enabled s
unfolding init_mesh_ratelimit new_rls
ratelimit_there join s = ground arith

mtls_if :
    (host : MtlsHost) (b : Bool) (x : MtlsAgent ⊎ AgentError) (o : Option MtlsAgent)
    → (if not b then inl none else found_agent host x) ≡ inl o
    → is_there o ≡ b
unfolding found_agent
mtls_if host false x o h = sym (ap is_there (of_inl none o h))
mtls_if host true (inl a) o h = sym (ap is_there (of_inl (some a) o h))
mtls_if host true (inr e) o h = cc

mtls_there :
    (host : MtlsHost) (s : SidecarConfig) (o : Option MtlsAgent)
    → init_mesh_mtls host s ≡ inl o
    → is_there o ≡ is_mesh_mtls_enabled s
unfolding init_mesh_mtls
mtls_there host s o h = mtls_if host (is_mesh_mtls_enabled s) _ o h

failed_ne_built : (e : InitError) (b : BuiltAgent) → done (init_failed_with e) ≢ done (built b)
failed_ne_built e b h = cc

pub bind-done :
    {A B : Type 0} (m : Outcome A) (f : A → Outcome B) (b : B)
    → (m >>= f) ≡ done b
    → (a : A) × (m ≡ done a) × (f a ≡ done b)
bind-done (done a) f b h = (a, refl, h)
bind-done panic f b h = cc

no_handlers : (names : List Str) → debug_handlers names ≡ []
unfolding debug_handlers
no_handlers [] = refl
no_handlers (name ∷ names) = no_handlers names

-- The resolvers register no handler, so that the debug server is always made.
abbrev debug_server_of : SidecarConfig → Option DebugServer
debug_server_of s =
    if s.debugger.enable
    then some (record { bind = s.bind; port = s.debugger.port; patterns = [] })
    else none

debug_lem : (s : SidecarConfig) (svr : Server) → init_debug_server s svr ≡ done (debug_server_of s)
unfolding init_debug_server register_debug_handler
debug_lem s svr = elim (Bool-cases s.debugger.enable) [
  | inr e ↦ rw e refl
  | inl e ↦ rw (e, no_handlers svr.resolvers) refl
]

debug_there : (s : SidecarConfig) → is_there (debug_server_of s) ≡ s.debugger.enable
debug_there s = ground arith

-- The services of the configuration, and where they come from.
pub record IsBuilt (env : Surroundings) (s : SidecarConfig) (b : BuiltAgent) : Type 0 where
  pub resolver :
      (new_server env.registered env.initialize (resolver_config env s)).0 ≡ ok b.dns_resolver
  pub recurse : recurse_proxy_conf env.parse_ip env.is_file env.client_config s ≡ some b.recurse
  pub debug : is_there b.debug_server ≡ s.debugger.enable
  pub metrics : is_there b.metric_server ≡ is_mesh_metrics_enabled s
  pub ratelimit : is_there b.rls_svr ≡ is_mesh_ratelimit_enabled s
  pub mtls : is_there b.mtls_agent ≡ is_mesh_mtls_enabled s

module _ (env : Surroundings) where
  mesh_lem :
      (s : SidecarConfig) (svr : Server) (r : Option Config) (d : Option DebugServer)
      (x : Option MtlsAgent ⊎ AgentError) (b : BuiltAgent)
      → init_mesh env s svr r d x ≡ built b
      → (o : Option MtlsAgent) × (x ≡ inl o)
        × (b ≡ record {
          dns_resolver = svr;
          recurse = r;
          debug_server = d;
          metric_server = init_mesh_metrics s;
          rls_svr = init_mesh_ratelimit env.join s;
          mtls_agent = o;
        })
  unfolding init_mesh
  mesh_lem s svr r d (inl o) b h = (o, refl, sym (of_built _ _ h))
  mesh_lem s svr r d (inr e) b h = cc

  debug_ok :
      (s : SidecarConfig) (r : Option Config) (svr : Server)
      → init_debug env s r (ok svr)
        ≡ done (init_mesh env s svr r (debug_server_of s) (init_mesh_mtls env.mtls_host s))
  unfolding init_debug
  debug_ok s r svr = rw (debug_lem s svr, init_debug) refl

  debug_done :
      (s : SidecarConfig) (r : Option Config) (x : Result Server)
      → (b : Built) × (init_debug env s r x ≡ done b)
  unfolding init_debug
  debug_done s r (err e) = (_, refl)
  debug_done s r (ok svr) = (_, debug_ok s r svr)

  debug_built :
      (s : SidecarConfig) (r : Option Config) (x : Result Server) (b : BuiltAgent)
      → init_debug env s r x ≡ done (built b)
      → (x ≡ ok b.dns_resolver)
        × (b.recurse ≡ r)
        × (b.debug_server ≡ debug_server_of s)
        × (b.metric_server ≡ init_mesh_metrics s)
        × (b.rls_svr ≡ init_mesh_ratelimit env.join s)
        × (init_mesh_mtls env.mtls_host s ≡ inl b.mtls_agent)
  unfolding init_debug
  debug_built s r (err e) b h = absurd (failed_ne_built _ b h)
  debug_built s r (ok svr) b h =
      let (o, e, f) =
        mesh_lem s svr r (debug_server_of s) (init_mesh_mtls env.mtls_host s) b
          (of_done _ _ (sym (debug_ok s r svr) ∙ h)) in
      (
        ap (λ t. ok t.dns_resolver) (sym f),
        ap (λ t. t.recurse) f,
        ap (λ t. t.debug_server) f,
        ap (λ t. t.metric_server) f,
        ap (λ t. t.rls_svr) f,
        e ∙ ap (λ t. inl t.mtls_agent) (sym f),
      )

  -- The services of a configuration are made without a panic.
  pub services_done :
      (s : SidecarConfig) (r : Option (Option Config))
      → (b : Built) × (init_services env s r ≡ done b)
  unfolding init_services
  services_done s none = (_, refl)
  services_done s (some r) = debug_done s r _

  services_from :
      (s : SidecarConfig) (r : Option (Option Config))
      → recurse_proxy_conf env.parse_ip env.is_file env.client_config s ≡ r
      → (b : BuiltAgent) → init_services env s r ≡ done (built b)
      → IsBuilt env s b
  unfolding init_services
  services_from s none e b h = absurd (failed_ne_built _ b h)
  services_from s (some r) e b h =
      let (a, c, d, m, l, t) = debug_built s r _ b h in
      record {
        resolver = a;
        recurse = e ∙ ap (λ x. some x) (sym c);
        debug = ap is_there d ∙ debug_there s;
        metrics = ap is_there m ∙ metrics_there s;
        ratelimit = ap is_there l ∙ ratelimit_there env.join s;
        mtls = mtls_there env.mtls_host s b.mtls_agent t;
      }

  pub services_built :
      (s : SidecarConfig) (b : BuiltAgent)
      → init_services env s (recurse_proxy_conf env.parse_ip env.is_file env.client_config s)
        ≡ done (built b)
      → IsBuilt env s b
  services_built s b h = services_from s _ refl b h
