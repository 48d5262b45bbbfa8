-- ===== src/Tests/Starts.antt =====
-- The start of the sidecar: initAgent of internal/bootstrap/agent.go.
use polaris_sidecar.Bootstrap.Init.{
  Built, BuiltAgent, Globals, Surroundings, built, init_agent, init_configured, init_context,
  init_debug, init_failed_with, init_logger, init_mesh, init_services,
}
use polaris_sidecar.Bootstrap.Made.{Made, init_agent-Made}
use polaris_sidecar.Config.{default_sidecar_config}
use polaris_sidecar.Config.Env.{
  atoi, digits_value, get_env_bool_value, get_env_int_value, get_env_string_value,
  get_env_strings_value, parse_bool,
}
use polaris_sidecar.Config.Init.{init_config}
use polaris_sidecar.Config.Location.{
  merge_location_env, set_area, set_location_config, set_provider,
}
use polaris_sidecar.Config.Merge.{
  boot_flag, env_merged, env_namespace, merge_boot_config, merge_dns_agent_env, merge_env,
  merge_logger_env, merge_mesh_proxy_env, merge_polaris_env, merge_resolver_env,
  merge_resolvers_env, set_option,
}
use polaris_sidecar.Config.Services.{
  debug_handlers, init_debug_server, init_mesh_metrics, init_mesh_mtls, init_polaris_context,
  polaris_api_config, register_debug_handler, sdk_config,
}
use polaris_sidecar.Config.Verify.{set_flags, verify, verify_fields, verify_resolvers}
use polaris_sidecar.Config.Wiring.{
  init_mesh_ratelimit, is_bind_localhost, is_mesh_metrics_enabled, is_mesh_mtls_enabled,
  is_mesh_ratelimit_enabled, recurse_proxy_conf,
}
use polaris_sidecar.Log.{default_options, level_to_string, set_default_option, string_level}
use polaris_sidecar.Log.Configure.{configure, replace_globals, update_scope, update_scopes}
use polaris_sidecar.Log.Prepare.{create_path_if_not_exist, prep_output, prep_zap}
use polaris_sidecar.Log.Scope.{find_scope}
use polaris_sidecar.Prelude.{
  Option, Outcome, [], done, false, none, panic, refl, some, true, ◌∷◌, ◌≡◌,
}
use polaris_sidecar.Prelude.Assoc.{insert, lookup}
use polaris_sidecar.Prelude.Int.{pos}
use polaris_sidecar.Prelude.Sets.{member}
use polaris_sidecar.Prelude.Text.{codes, str_eq}
use polaris_sidecar.Resolver.Dns.{tcp, udp}
use polaris_sidecar.Resolver.Plugin.{plugin_name_dns_agent}
use polaris_sidecar.Resolver.Recursor.{init_recurse_config}
use polaris_sidecar.Resolver.Server.{build_resolvers, make_server, new_server}
use polaris_sidecar.Tests.Logs.{all_ok, fresh}
use polaris_sidecar.Tests.Settings.{no_flags, same_file, sample_env}

abbrev calm : Surroundings
calm = record {
  merge_file = same_file;
  env = sample_env;
  log_options = λ o. record default_options { output_level = o.output_level };
  host = all_ok;
  new_context = λ c. true;
  parse_ip = λ s. [];
  is_file = false;
  client_config = none;
  registered = λ s. true;
  initialize = λ c. true;
  print_port = λ n. codes "5353";
  join = λ s n. s;
  mtls_host = record {
    env = sample_env;
    parse_duration = λ s. none;
    account = none;
    mkdir = λ s. true;
    root_certs = false;
    scheme = λ s. none;
    sat = [];
  };
}

abbrev before_start : Globals
before_start = record { logging = fresh; context = none }

abbrev agent_in : Outcome (Built × Globals) → Option BuiltAgent
agent_in (done (built b, g)) = some b
agent_in (done (init_failed_with e, g)) = none
agent_in panic = none

abbrev globals_in : Outcome (Built × Globals) → Globals
globals_in (done (b, g)) = g
globals_in panic = before_start

abbrev calm_agent : BuiltAgent
calm_agent = record {
  dns_resolver = record {
    dns_sever_list =
        record { addr = codes "0.0.0.0:5353"; net = udp; resolvers = plugin_name_dns_agent ∷ [] }
        ∷ record { addr = codes "0.0.0.0:5353"; net = tcp; resolvers = plugin_name_dns_agent ∷ [] }
        ∷ [];
    resolvers = plugin_name_dns_agent ∷ [];
    once = false;
  };
  recurse = none;
  debug_server = some (record { bind = codes "0.0.0.0"; port = pos 50000; patterns = [] });
  metric_server = none;
  rls_svr = none;
  mtls_agent = none;
}

abbrev after_start : Globals
after_start = globals_in (init_agent calm no_flags before_start)

calm_starts : init_agent calm no_flags before_start ≡ done (built calm_agent, after_start)
unfolding init_agent init_configured init_logger init_context init_services init_debug init_mesh
    init_debug_server register_debug_handler debug_handlers init_mesh_metrics init_mesh_mtls
    is_mesh_metrics_enabled is_mesh_mtls_enabled is_mesh_ratelimit_enabled init_mesh_ratelimit
    init_polaris_context sdk_config polaris_api_config recurse_proxy_conf init_recurse_config
    is_bind_localhost new_server build_resolvers make_server configure prep_zap prep_output
    create_path_if_not_exist replace_globals update_scopes update_scope find_scope lookup insert
    string_level set_default_option level_to_string default_options init_config merge_env
    merge_resolvers_env env_namespace env_merged default_sidecar_config merge_resolver_env
    merge_dns_agent_env merge_mesh_proxy_env set_option get_env_int_value get_env_bool_value
    get_env_string_value get_env_strings_value sample_env str_eq merge_boot_config boot_flag
    parse_bool member verify verify_fields verify_resolvers set_flags atoi digits_value
    merge_polaris_env merge_logger_env merge_location_env set_area set_location_config set_provider
calm_starts = refl

init_agent-Made_example : Made calm no_flags before_start after_start calm_agent
init_agent-Made_example =
    init_agent-Made calm no_flags before_start after_start calm_agent calm_starts
