-- ===== src/Log/Configure.antt =====
-- pkg/log/config.go: what `Configure` does to the default scope and to zap.
use polaris_sidecar.Log.{
  LogError, Options, default_logger_name, default_options, set_default_option, string_level,
  unknown_logger, unknown_output_level, unknown_stack_level,
}
use polaris_sidecar.Log.Output.{LogEvent, Sink, ZapLevel, level_to_zap, sync_cores}
use polaris_sidecar.Log.Prepare.{FileEvent, Host, Prepared, prep_zap}
use polaris_sidecar.Log.Scope.{Scope, find_scope, register_scope, scope_enabled}
use polaris_sidecar.Prelude.{Bool, List, Option, Outcome, [], done, inl, inr, none, panic, some, ℕ}
use polaris_sidecar.Prelude.Assoc.{Assoc, insert}
use polaris_sidecar.Prelude.Text.{Str, codes}

-- The core that the global logger of zap writes to: the default scope's level enables it.
pub record Capture : Type 0 where
  pub sink : Sink
  pub json : Bool
  pub error_output : Sink
  pub caller_skip : ℕ
  pub add_caller : Bool
  pub add_stacktrace : Option ZapLevel

-- The `enabler` of the captured core: a level that is none of four is taken as debug.
unfoldable pub capture_enabled : Scope → ZapLevel → Bool
unfolding scope_enabled
capture_enabled default_scope lvl = scope_enabled lvl default_scope

-- `updateScopes` on the scope it found: what is set before an error stays set.
unfoldable pub update_scope : Options → Prepared → Scope → Scope × Option LogError
unfolding string_level
update_scope o p scope = elim (string_level o.output_level) [
  | none ↦ (scope, some (unknown_output_level o.output_level))
  | some l ↦ elim (string_level o.stacktrace_level) [
    | none ↦ (record scope { output_level = l }, some (unknown_stack_level o.stacktrace_level))
    | some st ↦ (
      record scope {
        output_level = l;
        stack_trace_level = st;
        pt = some (record { cores = p.cores; error_sink = p.error_sink });
        log_callers = o.log_caller;
      },
      none,
    )
  ]
]

unfoldable pub update_scopes :
    Str → Options → Prepared → Assoc Scope → Assoc Scope × Option LogError
unfolding find_scope update_scope
update_scopes type_name o p scopes = elim (find_scope type_name scopes) [
  | none ↦ (scopes, some (unknown_logger type_name))
  | some s ↦ let (s', failure) = update_scope o p s in (insert type_name s' scopes, failure)
]

-- The scopes and the global logger of zap.
pub record Logging : Type 0 where
  pub scopes : Assoc Scope
  pub captured : Option Capture

pub record Configured : Type 0 where
  pub options : Options
  pub logging : Logging
  pub files : List FileEvent
  pub error : Option LogError

unfoldable pub capture_of : Scope → Prepared → Capture
unfolding level_to_zap
capture_of default_scope p = record {
  sink = p.sink;
  json = p.json;
  error_output = p.error_sink;
  caller_skip = 1;
  add_caller = default_scope.log_callers;
  add_stacktrace = level_to_zap default_scope.stack_trace_level;
}

-- `Configure` once the sinks are made.
unfoldable pub replace_globals : Options → Prepared → Logging → Logging × Option LogError
unfolding update_scopes capture_of
replace_globals o p logging =
    let (scopes, failure) = update_scopes default_logger_name o p logging.scopes in
    elim failure [
      | some e ↦ (record logging { scopes = scopes }, some e)
      | none ↦ (
        record {
          scopes = scopes;
          captured = elim (find_scope default_logger_name scopes) [
            | none ↦ logging.captured
            | some s ↦ some (capture_of s p)
          ];
        },
        none,
      )
    ]

-- `Configure`, which also completes the options that it is given.
unfoldable pub configure : Host → Options → Logging → Configured
unfolding set_default_option prep_zap replace_globals
configure host options logging =
    let o = set_default_option options in
    let (events, r) = prep_zap host o in
    elim r [
      | inr e ↦ record { options = o; logging = logging; files = events; error = some e }
      | inl p ↦
          let (logging', failure) = replace_globals o p logging in
          record { options = o; logging = logging'; files = events; error = failure }
    ]

-- The package's variables, and its `init`, which ignores the error of the first configuration.
unfoldable pub init_log : Host → Logging
unfolding register_scope configure default_options
init_log host =
    elim (register_scope default_logger_name (codes "Unscoped logging messages.") 0 []) [
      | panic ↦ record { scopes = []; captured = none }
      | done (s, scopes) ↦
          (configure host default_options (record { scopes = scopes; captured = none })).logging
    ]

-- `Sync` of the package: the patch table of a scope that was never configured is nil.
unfoldable pub sync_log : (Sink → Option Str) → Scope → Outcome (List LogEvent × List Str)
unfolding sync_cores
sync_log sync_error default_scope = elim default_scope.pt [
  | none ↦ panic
  | some pt ↦ done (sync_cores sync_error pt.cores)
]
