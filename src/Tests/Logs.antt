-- ===== src/Tests/Logs.antt =====
-- Runs of pkg/log.
use polaris_sidecar.Config.{default_sidecar_config}
use polaris_sidecar.Config.Verify.{set_flags, verify, verify_fields, verify_resolvers}
use polaris_sidecar.Log.{
  Options, default_logger_name, default_options, error_level, info_level, level_to_string,
  none_level, option_level, rank, set_default_option, string_level, unknown_stack_level, warn_level,
}
use polaris_sidecar.Log.Configure.{
  Logging, configure, init_log, replace_globals, update_scope, update_scopes,
}
use polaris_sidecar.Log.Configured.{Found, configure_lem}
use polaris_sidecar.Log.Date.{Moment, format_date}
use polaris_sidecar.Log.Logged.{default_log-configure, entry_after}
use polaris_sidecar.Log.Output.{zap_error, zap_info}
use polaris_sidecar.Log.Prepare.{Host, create_path_if_not_exist, prep_output, prep_zap}
use polaris_sidecar.Log.Registry.{HasMark, Registered, register_scope_lem}
use polaris_sidecar.Log.Replaced.{known}
use polaris_sidecar.Log.Routing.{all_usable, configured_scope, prepared_of, routed, sinks_ready}
use polaris_sidecar.Log.Scope.{
  Runtime, Scope, contains_any, default_log, find_scope, new_scope, plain, printed, register_scope,
  scope_log,
}
use polaris_sidecar.Log.Stacks.{add_stack, between, scope_log-default_log}
use polaris_sidecar.Log.Verified.{configure-verify}
use polaris_sidecar.Prelude.{
  Ensures, [], arith, false, if◌then◌else◌, leb, map, none, panic, refl, some, true, ◌&&◌, ◌↔◌, ◌∷◌,
  ◌≡◌,
}
use polaris_sidecar.Prelude.Assoc.{insert, lookup}
use polaris_sidecar.Prelude.Int.{pos}
use polaris_sidecar.Prelude.Sets.{member}
use polaris_sidecar.Prelude.Text.{codes, str_eq}

abbrev pub all_ok : Host
all_ok = record {
  parse_url = λ s. some (record { scheme = []; path = s });
  dir = λ s. s;
  mkdir_all = λ s. true;
  open_all = λ s. true;
}

abbrev writer : Runtime
writer = record {
  sprint = λ args. [];
  sprintf = λ template args. template;
  now = codes "now";
  caller_at = λ n. codes "main.go";
  stack_trace = codes "main";
  write_error = λ s e. none;
}

abbrev unscoped : Scope
unscoped = record {
  name = default_logger_name;
  name_to_emit = [];
  description = [];
  caller_skip = 0;
  output_level = info_level;
  stack_trace_level = none_level;
  log_callers = false;
  pt = none;
}

abbrev pub fresh : Logging
fresh = record { scopes = (default_logger_name, unscoped) ∷ []; captured = none }

abbrev quiet_options : Options
quiet_options = record {
  output_paths = [];
  error_output_paths = codes "stderr" ∷ [];
  rotate_output_path = [];
  error_rotate_output_path = codes "error.log";
  rotation_max_size = pos 0;
  rotation_max_age = pos 0;
  rotation_max_backups = pos 0;
  json_encoding = false;
  output_level = codes "warn";
  stacktrace_level = [];
  log_caller = false;
}

fresh-Found : Found fresh.scopes unscoped
unfolding lookup str_eq
fresh-Found = refl

configure_lem_example : ((configure all_ok quiet_options fresh).error ≡ none) ↔ (
    known (codes "warn") && known [] && sinks_ready all_ok (set_default_option quiet_options)
    ≡ true)
configure_lem_example = configure_lem all_ok quiet_options fresh unscoped fresh-Found

quiet_ready : sinks_ready all_ok (set_default_option quiet_options) ≡ true
unfolding sinks_ready all_usable set_default_option str_eq
quiet_ready = refl

quiet_accepted : (configure all_ok quiet_options fresh).error ≡ none
unfolding known string_level lookup str_eq
quiet_accepted =
    (configure_lem all_ok quiet_options fresh unscoped fresh-Found).1 (ground (arith, quiet_ready))

abbrev quiet_scope : Scope
quiet_scope = configured_scope (set_default_option quiet_options) warn_level none_level unscoped

quiet_scope-Found : Found (configure all_ok quiet_options fresh).logging.scopes quiet_scope
unfolding configure prep_zap prep_output create_path_if_not_exist replace_globals update_scopes
    update_scope find_scope lookup insert str_eq string_level set_default_option level_to_string
    prepared_of
quiet_scope-Found = refl

default_log-configure_example :
    default_log writer zap_error quiet_scope (plain (codes "no server") []) ≡ (
      if leb (rank error_level) (rank (option_level (set_default_option quiet_options)))
      then routed
          (set_default_option quiet_options)
          (entry_after quiet_options writer unscoped zap_error (plain (codes "no server") []))
          []
      else [])
default_log-configure_example =
    default_log-configure all_ok quiet_options fresh writer (λ s e. refl) unscoped quiet_scope
      fresh-Found quiet_accepted quiet_scope-Found zap_error (plain (codes "no server") [])

-- A level that no table has.
abbrev loud_options : Options
loud_options = record quiet_options { stacktrace_level = codes "loud" }

loud_refused :
    (configure all_ok loud_options fresh).error ≡ some (unknown_stack_level (codes "loud"))
unfolding configure prep_zap prep_output create_path_if_not_exist replace_globals update_scopes
    update_scope find_scope lookup insert str_eq string_level set_default_option level_to_string
    prepared_of
loud_refused = refl

register_scope_lem_example :
    ((register_scope (codes "dns.agent") [] 0 fresh.scopes ≡ panic) ↔ HasMark (codes "dns.agent"))
    × Ensures
        (Registered (codes "dns.agent") [] 0 fresh.scopes)
        (register_scope (codes "dns.agent") [] 0 fresh.scopes)
register_scope_lem_example = register_scope_lem (codes "dns.agent") [] 0 fresh.scopes

abbrev new_year : Moment
new_year = record {
  year = 2024;
  month = 1;
  day = 31;
  hour = 23;
  minute = 59;
  second = 7;
  nanosecond = 12345678;
}

new_year_text : format_date new_year ≡ codes "2024-01-31T23:59:07.012345Z"
unfolding format_date
new_year_text = refl

abbrev tracing : Scope
tracing = record quiet_scope { stack_trace_level = error_level; output_level = info_level }

scope_log-default_log_example : scope_log writer zap_info tracing (printed []) ≡ (
    if between zap_info tracing
    then map (add_stack writer) (default_log writer zap_info tracing (printed []))
    else default_log writer zap_info tracing (printed []))
scope_log-default_log_example =
    scope_log-default_log writer (λ s e. refl) zap_info tracing (printed [])

default_verified : (verify default_sidecar_config).1 ≡ []
unfolding verify verify_fields verify_resolvers set_flags default_sidecar_config str_eq member
default_verified = refl

abbrev info_options : Options
info_options = record quiet_options { output_level = codes "info" }

info_level_same : info_options.output_level ≡ default_sidecar_config.logger.output_level
unfolding default_sidecar_config
info_level_same = refl

configure-verify_example :
    ((configure all_ok info_options fresh).error ≡ none)
    ↔ (sinks_ready all_ok (set_default_option info_options) ≡ true)
configure-verify_example =
    configure-verify default_sidecar_config all_ok info_options fresh unscoped default_verified
      info_level_same refl fresh-Found

-- A host on which nothing can be opened.
abbrev no_files : Host
no_files = record all_ok { open_all = λ s. false }

no_files-Found :
    Found
      (init_log no_files).scopes
      (new_scope default_logger_name (codes "Unscoped logging messages.") 0)
unfolding init_log register_scope contains_any new_scope configure prep_zap prep_output
    create_path_if_not_exist default_options lookup insert str_eq string_level set_default_option
    level_to_string
no_files-Found = refl
