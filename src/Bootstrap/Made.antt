-- ===== src/Bootstrap/Made.antt =====
-- When initAgent of internal/bootstrap/agent.go succeeds, and when it panics.
use polaris_sidecar.Bootstrap.{count_if, error_capacity}
use polaris_sidecar.Bootstrap.Built.{IsBuilt, bind-done, services_built, services_done}
use polaris_sidecar.Bootstrap.Init.{
  Built, BuiltAgent, Globals, InitError, Surroundings, agent_of, built, init_agent, init_configured,
  init_context, init_failed_with, init_logger, init_services,
}
use polaris_sidecar.Config.{BootConfig, SidecarConfig}
use polaris_sidecar.Config.Init.{
  Initialized, boot_failed, configured, file_failed, init_config, verify_failed,
}
use polaris_sidecar.Config.Services.{
  PolarisApiConfig, SdkConfig, init_polaris_context, polaris_api_config, sdk_config,
}
use polaris_sidecar.Config.Wiring.{
  is_mesh_metrics_enabled, is_mesh_mtls_enabled, is_mesh_ratelimit_enabled, recurse_proxy_conf,
}
use polaris_sidecar.Log.{LogError}
use polaris_sidecar.Log.Configure.{configure}
use polaris_sidecar.Prelude.{
  Bool, Bool-cases, Option, Outcome, Outcome-cases, ap, arith, done, false, inl, inr, none, of_done,
  panic, refl, some, sym, true, ◌+◌, ◌>>=◌, ◌↔◌, ◌∙◌, ◌≡◌, ◌≢◌,
}

-- The context of Polaris is set, and the rest is as it was.
abbrev HasContext : Globals → Globals → Type 0
HasContext g g' = (c : SdkConfig) × (g'.context ≡ some c) × (g'.logging ≡ g.logging)

failed_ne :
    (e : InitError) (b : BuiltAgent) (g g' : Globals)
    → ◌≢◌ {A = Outcome (Built × Globals)} (done (init_failed_with e, g)) (done (built b, g'))
failed_ne e b g g' h = cc

no_panic : {A : Type 0} (o : Outcome A) (a : A) → o ≡ done a → o ≢ panic
no_panic o a h e = cc

polaris_some :
    (new_context : SdkConfig → Bool) (conf : PolarisApiConfig) (old : Option SdkConfig)
    → (init_polaris_context new_context conf old).1 ≡ true
    → (c : SdkConfig) × ((init_polaris_context new_context conf old).0 ≡ some c)
unfolding init_polaris_context
polaris_some new_context conf (some c) h = (c, refl)
polaris_some new_context conf none h = elim (Bool-cases (new_context (sdk_config conf))) [
  | inl e ↦ (sdk_config conf, rw e refl)
  | inr e ↦ absurd (ground arith)
]

module _ (env : Surroundings) where
  context_built :
      (s : SidecarConfig) (g : Globals) (x : Option SdkConfig × Bool)
      → (x.1 ≡ true → (c : SdkConfig) × (x.0 ≡ some c))
      → (b : BuiltAgent) (g' : Globals) → init_context env s g x ≡ done (built b, g')
      → IsBuilt env s b × HasContext g g'
  unfolding init_context
  context_built s g (c, false) f b g' h = absurd (failed_ne _ b _ g' h)
  context_built s g (c, true) f b g' h =
      let (a, e, k) =
        bind-done
          (init_services env s (recurse_proxy_conf env.parse_ip env.is_file env.client_config s)) _
          _ h in
      let same = of_done _ _ k in
      let (d, i) = f refl in
      (
        services_built env s b (e ∙ ap (λ t. done t.0) same),
        (d, ap (λ t. t.1.context) (sym same) ∙ i, ap (λ t. t.1.logging) (sym same)),
      )

  logger_built :
      (s : SidecarConfig) (g : Globals) (x : Option LogError) (b : BuiltAgent) (g' : Globals)
      → init_logger env s g x ≡ done (built b, g')
      → (x ≡ none) × IsBuilt env s b × HasContext g g'
  unfolding init_logger
  logger_built s g (some e) b g' h = absurd (failed_ne _ b _ g' h)
  logger_built s g none b g' h =
      let (u, v) =
        context_built s g _ (polaris_some env.new_context (polaris_api_config s) g.context) b g'
          h in
      (refl, u, v)

  -- What a successful start has made.
  pub record Made (boot : BootConfig) (g g' : Globals) (b : BuiltAgent) : Type 0 where
    pub config : SidecarConfig
    pub accepted : init_config env.merge_file env.env boot ≡ done (configured config)
    pub logger : (configure env.host (env.log_options config.logger) g.logging).error ≡ none
    pub logging :
        g'.logging ≡ (configure env.host (env.log_options config.logger) g.logging).logging
    pub context : g'.context ≢ none
    pub services : IsBuilt env config b
    pub capacity :
        error_capacity (agent_of b)
        ≡ count_if config.debugger.enable 1
          + 2
          + count_if (is_mesh_mtls_enabled config) 1
          + count_if (is_mesh_metrics_enabled config) 1
          + count_if (is_mesh_ratelimit_enabled config) 1

  some_ne : (o : Option SdkConfig) (c : SdkConfig) → o ≡ some c → o ≢ none
  some_ne o c h e = cc

  configured-Made :
      (boot : BootConfig) (g g' : Globals) (b : BuiltAgent) (i : Initialized)
      → init_config env.merge_file env.env boot ≡ done i
      → init_configured env i g ≡ done (built b, g')
      → Made boot g g' b
  unfolding init_configured error_capacity
  configured-Made boot g g' b file_failed e h = absurd (failed_ne _ b _ g' h)
  configured-Made boot g g' b (boot_failed x) e h = absurd (failed_ne _ b _ g' h)
  configured-Made boot g g' b (verify_failed x) e h = absurd (failed_ne _ b _ g' h)
  configured-Made boot g g' b (configured s) e h =
      let (x, v, (c, k, l)) = logger_built s _ _ b g' h in
      record {
        config = s;
        accepted = e;
        logger = x;
        logging = l;
        context = some_ne _ c k;
        services = v;
        capacity = rw (v.debug, v.mtls, v.metrics, v.ratelimit) refl;
      }

  -- If the agent is made, then the configuration was accepted, the logger was configured with its
  -- options and is left as that left it, the context of Polaris is there, the DNS server and its
  -- fallback are those of the configuration, each other service is there exactly if it is enabled,
  -- and the error channel has a place for each, and two for the DNS server.
  pub init_agent-Made :
      (boot : BootConfig) (g g' : Globals) (b : BuiltAgent)
      → init_agent env boot g ≡ done (built b, g')
      → Made boot g g' b
  unfolding init_agent
  init_agent-Made boot g g' b h =
      let (i, e, f) = bind-done (init_config env.merge_file env.env boot) _ _ h in
      configured-Made boot g g' b i e f

  context_done :
      (s : SidecarConfig) (g : Globals) (x : Option SdkConfig × Bool)
      → init_context env s g x ≢ panic
  unfolding init_context
  context_done s g (c, false) = no_panic _ _ refl
  context_done s g (c, true) =
      let (b, e) =
        services_done env s (recurse_proxy_conf env.parse_ip env.is_file env.client_config s) in
      no_panic _ _ (ap (λ t. t >>= (λ b. done (b, record g { context = c }))) e)

  logger_done :
      (s : SidecarConfig) (g : Globals) (x : Option LogError) → init_logger env s g x ≢ panic
  unfolding init_logger
  logger_done s g none = context_done s g _
  logger_done s g (some e) = no_panic _ _ refl

  configured_done : (i : Initialized) (g : Globals) → init_configured env i g ≢ panic
  unfolding init_configured
  configured_done (configured s) g =
      let c = configure env.host (env.log_options s.logger) g.logging in
      logger_done s (record g { logging = c.logging }) c.error
  configured_done file_failed g = no_panic _ _ refl
  configured_done (boot_failed x) g = no_panic _ _ refl
  configured_done (verify_failed x) g = no_panic _ _ refl

  -- The start panics exactly if the reading of the configuration does.
  pub init_agent-panic :
      (boot : BootConfig) (g : Globals)
      → (init_agent env boot g ≡ panic) ↔ (init_config env.merge_file env.env boot ≡ panic)
  unfolding init_agent
  init_agent-panic boot g = elim (Outcome-cases (init_config env.merge_file env.env boot)) [
    | inr e ↦ ((λ h. e), λ h. rw e refl)
    | inl (i, e) ↦ (
      (λ h.
          absurd
            (configured_done i g (ap (λ t. t >>= (λ j. init_configured env j g)) (sym e) ∙ h))),
      λ h. absurd (no_panic _ i e h),
    )
  ]
