-- ===== src/Config/Merge.antt =====
-- How internal/bootstrap/config/config.go merges the environment and the boot flags into the
-- configuration that the file left.
use polaris_sidecar.Config.{
  BootConfig, LogOptions, MeshConfig, PolarisConfig, SidecarConfig, dns_answer_ip_key,
  reload_interval_key,
}
use polaris_sidecar.Config.Env.{
  Env, get_env_bool_value, get_env_int_value, get_env_string_value, get_env_strings_value,
  parse_bool,
}
use polaris_sidecar.Config.Location.{merge_location_env}
use polaris_sidecar.Labels.{parse_labels}
use polaris_sidecar.Prelude.{
  Bool, List, Option, Outcome, [], done, false, if◌then◌else◌, is_empty, none, not, panic, some,
  ◌&&◌, ◌++◌, ◌>>=◌, ◌∷◌,
}
use polaris_sidecar.Prelude.Assoc.{Assoc, insert}
use polaris_sidecar.Prelude.Int.{gtb, pos, ℤ}
use polaris_sidecar.Prelude.Text.{Str, codes, str_eq}
use polaris_sidecar.Resolver.DnsAgent.{or_empty, route_labels_key}
use polaris_sidecar.Resolver.Plugin.{
  ConfigEntry, OptionValue, label_map, number, plugin_name_dns_agent, plugin_name_mesh_proxy, text,
}

-- An assignment into the options of an entry, under a test: a nil map panics.
unfoldable pub set_option : Bool → Str → OptionValue → ConfigEntry → Outcome ConfigEntry
set_option guard k v c =
    let set : Outcome ConfigEntry = elim c.options [
      | none ↦ panic
      | some m ↦ done (record c { options = some (insert k v m) })
    ] in
    if guard then set else done c

module _ (env : Env) where
  -- The part of the loop for each kind of resolver.
  unfoldable pub merge_dns_agent_env : ConfigEntry → ConfigEntry
  merge_dns_agent_env c =
      let route_labels = get_env_string_value env (codes "SIDECAR_DNS_ROUTE_LABELS") [] in
      record c {
        dns_ttl = get_env_int_value env (codes "SIDECAR_DNS_TTL") c.dns_ttl;
        enable = get_env_bool_value env (codes "SIDECAR_DNS_ENABLE") c.enable;
        suffix = get_env_string_value env (codes "SIDECAR_DNS_SUFFIX") c.suffix;
        options =
            if is_empty route_labels
            then c.options
            else some ((route_labels_key, text route_labels) ∷ []);
      }

  abbrev pub env_reload_interval : ℤ
  env_reload_interval = get_env_int_value env (codes "SIDECAR_MESH_RELOAD_INTERVAL") (pos 0)

  abbrev pub env_answer_ip : Str
  env_answer_ip = get_env_string_value env (codes "SIDECAR_MESH_ANSWER_IP") []

  unfoldable pub merge_mesh_proxy_env : ConfigEntry → Outcome ConfigEntry
  unfolding set_option
  merge_mesh_proxy_env c = do
    c' ←
        set_option (gtb env_reload_interval (pos 0)) reload_interval_key
          (number env_reload_interval)
          (record c {
            dns_ttl = get_env_int_value env (codes "SIDECAR_MESH_TTL") c.dns_ttl;
            enable = get_env_bool_value env (codes "SIDECAR_MESH_ENABLE") c.enable;
          })
    set_option (not (is_empty env_answer_ip)) dns_answer_ip_key (text env_answer_ip) c'

  unfoldable pub merge_resolver_env : Str → ConfigEntry → Outcome ConfigEntry
  unfolding merge_dns_agent_env merge_mesh_proxy_env
  merge_resolver_env namespace entry =
      let c = record entry { namespace = namespace } in
      let as_mesh = merge_mesh_proxy_env c in
      if str_eq c.name plugin_name_dns_agent
      then done (merge_dns_agent_env c)
      else if str_eq c.name plugin_name_mesh_proxy
      then as_mesh
      else done c

  unfoldable pub merge_resolvers_env : Str → List ConfigEntry → Outcome (List ConfigEntry)
  unfolding merge_resolver_env
  merge_resolvers_env namespace [] = done []
  merge_resolvers_env namespace (c ∷ cs) = do
    c' ← merge_resolver_env namespace c
    cs' ← merge_resolvers_env namespace cs
    done (c' ∷ cs')

  unfoldable pub merge_logger_env : LogOptions → LogOptions
  merge_logger_env l = record {
    rotate_output_path =
        get_env_string_value env (codes "SIDECAR_LOG_ROTATE_OUTPUT_PATH") l.rotate_output_path;
    error_rotate_output_path =
        get_env_string_value env (codes "SIDECAR_LOG_ERROR_ROTATE_OUTPUT_PATH")
          l.error_rotate_output_path;
    rotation_max_age =
        get_env_int_value env (codes "SIDECAR_LOG_ROTATION_MAX_AGE") l.rotation_max_age;
    rotation_max_backups =
        get_env_int_value env (codes "SIDECAR_LOG_ROTATION_MAX_BACKUPS") l.rotation_max_backups;
    rotation_max_size =
        get_env_int_value env (codes "SIDECAR_LOG_ROTATION_MAX_SIZE") l.rotation_max_size;
    output_level = get_env_string_value env (codes "SIDECAR_LOG_LEVEL") l.output_level;
  }

  unfoldable pub merge_mesh_config_env : MeshConfig → MeshConfig
  merge_mesh_config_env m = record {
    metrics = record {
      enable = get_env_bool_value env (codes "SIDECAR_METRIC_ENABLE") m.metrics.enable;
      port = get_env_int_value env (codes "SIDECAR_METRIC_LISTEN_PORT") m.metrics.port;
    };
    rate_limit = record m.rate_limit {
      enable = get_env_bool_value env (codes "SIDECAR_RLS_ENABLE") m.rate_limit.enable;
    };
    mtls = record {
      enable = get_env_bool_value env (codes "SIDECAR_MTLS_ENABLE") m.mtls.enable;
      ca_server = get_env_string_value env (codes "SIDECAR_MTLS_CA_SERVER") m.mtls.ca_server;
    };
  }

  unfoldable pub merge_polaris_env : PolarisConfig → PolarisConfig
  merge_polaris_env c = merge_location_env env (record c {
    addresses = get_env_strings_value env (codes "POLARIS_ADDRESS") c.addresses;
    nearby_match_level =
        get_env_string_value env (codes "SIDECAR_NEARBY_MATCH_LEVEL") c.nearby_match_level;
  })

  unfoldable pub env_namespace : SidecarConfig → Str
  env_namespace s = get_env_string_value env (codes "SIDECAR_NAMESPACE") s.namespace

  -- What `mergeEnv` leaves, if its loop over the resolvers returns.
  unfoldable pub env_merged : SidecarConfig → List ConfigEntry → SidecarConfig
  unfolding env_namespace merge_logger_env merge_mesh_config_env merge_polaris_env
  env_merged s resolvers = record s {
    bind = get_env_string_value env (codes "SIDECAR_BIND") s.bind;
    port = get_env_int_value env (codes "SIDECAR_PORT") s.port;
    namespace = env_namespace s;
    polaris_config = merge_polaris_env s.polaris_config;
    recurse = record s.recurse {
      enable = get_env_bool_value env (codes "SIDECAR_RECURSE_ENABLE") s.recurse.enable;
      timeout_sec = get_env_int_value env (codes "SIDECAR_RECURSE_TIMEOUT") s.recurse.timeout_sec;
    };
    logger = merge_logger_env s.logger;
    resolvers = resolvers;
    mesh_config = merge_mesh_config_env s.mesh_config;
  }

  -- `mergeEnv`
  unfoldable pub merge_env : SidecarConfig → Outcome SidecarConfig
  unfolding merge_resolvers_env env_merged
  merge_env s = do
    resolvers ← merge_resolvers_env (env_namespace s) s.resolvers
    done (env_merged s resolvers)

-- What is wrong with the boot flags.
pub data BootError : Type 0 where
  bad_recurse_enabled bad_dns_agent_enabled bad_mesh_proxy_enabled : BootError

-- A flag that is set: `ParseBool` returns false with an error.
unfoldable pub boot_flag : BootError → Str → Bool → Bool × List BootError
boot_flag e value old =
    if is_empty value
    then (old, [])
    else elim (parse_bool value) [ some b ↦ (b, []) | none ↦ (false, e ∷ []) ]

unfoldable pub boot_route_labels : Str → Option (Assoc OptionValue) → Option (Assoc OptionValue)
boot_route_labels route_labels options = elim (parse_labels route_labels) [
  | none ↦ options
  | some labels ↦
      if is_empty labels
      then options
      else some (insert route_labels_key (label_map labels) (or_empty options))
]

unfoldable pub boot_resolver : BootConfig → ConfigEntry → ConfigEntry × List BootError
unfolding boot_flag boot_route_labels
boot_resolver config c =
    let (agent, agent_errors) =
      boot_flag bad_dns_agent_enabled config.resolver_dns_agent_enabled c.enable in
    let (proxy, proxy_errors) =
      boot_flag bad_mesh_proxy_enabled config.resolver_mesh_proxy_enabled c.enable in
    if str_eq c.name plugin_name_dns_agent
    then (
      record c {
        enable = agent;
        options = boot_route_labels config.resolver_dns_agent_route_labels c.options;
      },
      agent_errors,
    )
    else if str_eq c.name plugin_name_mesh_proxy
    then (record c { enable = proxy }, proxy_errors)
    else (c, [])

unfoldable pub boot_resolvers : BootConfig → List ConfigEntry → List ConfigEntry × List BootError
unfolding boot_resolver
boot_resolvers config [] = ([], [])
boot_resolvers config (c ∷ cs) =
    let (c', errs) = boot_resolver config c in
    let (cs', more) = boot_resolvers config cs in (c' ∷ cs', errs ++ more)

-- `mergeBootConfig`, with the configuration it leaves and its errors. The flags of the resolvers
-- are read only if one of those of the DNS agent is set.
unfoldable pub merge_boot_config : BootConfig → SidecarConfig → SidecarConfig × List BootError
unfolding boot_resolvers
merge_boot_config config s =
    let (recurse, errs) = boot_flag bad_recurse_enabled config.recurse_enabled s.recurse.enable in
    let (resolvers, more) =
      if is_empty config.resolver_dns_agent_enabled
        && is_empty config.resolver_dns_agent_route_labels
      then (s.resolvers, [])
      else boot_resolvers config s.resolvers in
    (
      record s {
        bind = if is_empty config.bind then s.bind else config.bind;
        port = if gtb config.port (pos 0) then config.port else s.port;
        recurse = record s.recurse { enable = recurse };
        logger = record s.logger { output_level = config.log_level };
        resolvers = resolvers;
      },
      errs ++ more,
    )
