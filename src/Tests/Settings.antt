-- ===== src/Tests/Settings.antt =====
-- The configuration: internal/bootstrap/config.
use polaris_sidecar.Config.{
  BootConfig, SidecarConfig, default_sidecar_config, dns_answer_ip_key, reload_interval_key,
}
use polaris_sidecar.Config.Accepted.{IsValid, is_enabled, verify_lem}
use polaris_sidecar.Config.Entries.{has_bare_mesh, merge_env-panic, sets_mesh_option}
use polaris_sidecar.Config.Env.{
  Env, atoi, digits_value, get_env_bool_value, get_env_int_value, get_env_string_value,
  get_env_strings_value, parse_bool,
}
use polaris_sidecar.Config.Init.{configured, init_config, init_config_lem}
use polaris_sidecar.Config.Location.{
  merge_location_env, set_area, set_location_config, set_provider,
}
use polaris_sidecar.Config.Merge.{
  boot_flag, boot_resolver, env_merged, env_namespace, merge_boot_config, merge_dns_agent_env,
  merge_env, merge_logger_env, merge_mesh_proxy_env, merge_polaris_env, merge_resolver_env,
  merge_resolvers_env, set_option,
}
use polaris_sidecar.Config.Priority.{Prioritized}
use polaris_sidecar.Config.RouteLabels.{initialize-boot_resolver}
use polaris_sidecar.Config.Verify.{set_flags, verify, verify_fields, verify_resolvers}
use polaris_sidecar.Labels.{parse_labels}
use polaris_sidecar.Prelude.{
  Option, [], done, false, if◌then◌else◌, none, panic, refl, some, true, ℕ, ◌&&◌, ◌++◌, ◌||◌, ◌↔◌,
  ◌∷◌, ◌≡◌,
}
use polaris_sidecar.Prelude.Assoc.{insert}
use polaris_sidecar.Prelude.Int.{negsuc, pos}
use polaris_sidecar.Prelude.Sets.{member}
use polaris_sidecar.Prelude.Text.{Str, codes, split, str_eq}
use polaris_sidecar.Qname.{dot}
use polaris_sidecar.Resolver.DnsAgent.{initialize, route_labels_key}
use polaris_sidecar.Resolver.Plugin.{
  ConfigEntry, number, plugin_name_dns_agent, plugin_name_mesh_proxy, text,
}

-- An environment with one variable for the port and one for the labels.
unfoldable pub sample_env : Env
unfolding str_eq
sample_env name =
    if str_eq name (codes "SIDECAR_PORT")
    then codes "5353"
    else if str_eq name (codes "SIDECAR_DNS_ROUTE_LABELS")
    then codes "env:test"
    else if str_eq name (codes "SIDECAR_ZONE")
    then codes "z1"
    else []

abbrev pub no_flags : BootConfig
no_flags = record {
  bind = [];
  port = pos 0;
  log_level = codes "warn";
  recurse_enabled = codes "true";
  resolver_dns_agent_enabled = [];
  resolver_dns_agent_route_labels = [];
  resolver_mesh_proxy_enabled = [];
}

read_port : atoi (codes "5353") ≡ some (pos 5353)
unfolding atoi digits_value
read_port = refl

read_limit : atoi (codes "9223372036854775808") ≡ none
unfolding atoi digits_value
read_limit = refl

read_least : atoi (codes "-9223372036854775808") ≡ some (negsuc 9223372036854775807)
unfolding atoi digits_value
read_least = refl

abbrev env_default : SidecarConfig
env_default = env_merged sample_env default_sidecar_config (
    record {
      name = plugin_name_dns_agent;
      suffix = dot;
      dns_ttl = pos 10;
      enable = true;
      options = some ((route_labels_key, text (codes "env:test")) ∷ []);
      namespace = codes "default";
    }
    ∷ record {
      name = plugin_name_mesh_proxy;
      suffix = dot;
      dns_ttl = pos 120;
      enable = false;
      options = some (
          (reload_interval_key, number (pos 30))
          ∷ (dns_answer_ip_key, text (codes "10.4.4.4"))
          ∷ []);
      namespace = codes "default";
    }
    ∷ [])

env_merges : merge_env sample_env default_sidecar_config ≡ done env_default
unfolding merge_env merge_resolvers_env env_namespace default_sidecar_config merge_resolver_env
    merge_dns_agent_env merge_mesh_proxy_env set_option get_env_int_value get_env_bool_value
    get_env_string_value sample_env str_eq
env_merges = refl

abbrev pub same_file : SidecarConfig → Option SidecarConfig
same_file s = some s

abbrev started : SidecarConfig
started = (verify (merge_boot_config no_flags env_default).0).0

starts : init_config same_file sample_env no_flags ≡ done (configured started)
unfolding init_config merge_env merge_resolvers_env env_namespace env_merged default_sidecar_config
    merge_resolver_env merge_dns_agent_env merge_mesh_proxy_env set_option get_env_int_value
    get_env_bool_value get_env_string_value get_env_strings_value sample_env str_eq
    merge_boot_config boot_flag parse_bool member verify verify_fields verify_resolvers set_flags
    atoi digits_value merge_polaris_env merge_logger_env merge_location_env set_area
    set_location_config set_provider
starts = refl

init_config_lem_example :
    IsValid started × Prioritized sample_env no_flags default_sidecar_config started
init_config_lem_example =
    init_config_lem same_file sample_env no_flags default_sidecar_config started refl starts

verify_lem_example :
    (((verify default_sidecar_config).1 ≡ []) ↔ IsValid default_sidecar_config)
    × ((verify default_sidecar_config).0.dns_enabled ≡ (
        default_sidecar_config.dns_enabled
        || is_enabled plugin_name_dns_agent default_sidecar_config.resolvers))
    × ((verify default_sidecar_config).0.mesh_enabled ≡ (
        default_sidecar_config.mesh_enabled
        || is_enabled plugin_name_mesh_proxy default_sidecar_config.resolvers))
verify_lem_example = verify_lem default_sidecar_config

merge_env-panic_example :
    (merge_env sample_env default_sidecar_config ≡ panic)
    ↔ (has_bare_mesh default_sidecar_config.resolvers && sets_mesh_option sample_env ≡ true)
merge_env-panic_example = merge_env-panic sample_env default_sidecar_config

abbrev agent_entry : ConfigEntry
agent_entry = record {
  name = plugin_name_dns_agent;
  suffix = dot;
  dns_ttl = pos 10;
  enable = true;
  options = none;
  namespace = [];
}

abbrev label_flags : BootConfig
label_flags = record no_flags { resolver_dns_agent_route_labels = codes "env:test" }

initialize-boot_resolver_example : initialize true (boot_resolver label_flags agent_entry).0 ≡ none
unfolding parse_labels split insert str_eq
initialize-boot_resolver_example =
    initialize-boot_resolver label_flags agent_entry true (codes "env", codes "test") [] refl refl

abbrev join : Str → ℕ → Str
join bind port = bind ++ b':' ∷ port ∷ []

abbrev mesh_on : SidecarConfig
mesh_on = record default_sidecar_config {
  mesh_enabled = true;
  mesh_config = record default_sidecar_config.mesh_config {
    rate_limit = record {
      enable = true;
      network = codes "UNIX";
      address = codes "/run/rls.sock";
      bind_port = 0;
      tls_info = none;
    };
  };
}
