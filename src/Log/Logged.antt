-- ===== src/Log/Logged.antt =====
-- What the functions of pkg/log/default.go write after `Configure` of config.go.
use polaris_sidecar.Log.{
  Level, Options, option_level, option_stacktrace, rank, set_default_option, string_level,
}
use polaris_sidecar.Log.Configure.{Logging, configure}
use polaris_sidecar.Log.Configured.{Found, branches, some_ne_none}
use polaris_sidecar.Log.Output.{Entry, Sink, ZapLevel}
use polaris_sidecar.Log.Prepare.{Host, prepared, rotate_sink}
use polaris_sidecar.Log.Routing.{configured_scope, main_sink, prepared_of, routed, write-cores}
use polaris_sidecar.Log.Scope.{
  LogCall, Runtime, Scope, default_log, emit, entry_of, fields_of, level_of, message_of,
}
use polaris_sidecar.Prelude.{
  Bool, Bool-cases, List, [], ap, if◌then◌else◌, inl, inr, leb, none, of_some, refl, some, sym, ◌+◌,
  ◌∙◌, ◌≡◌,
}
use polaris_sidecar.Prelude.Text.{Str}

-- The entry of a call after a configuration.
abbrev pub entry_after : Options → Runtime → Scope → ZapLevel → LogCall → Entry
entry_after options rt d l call = record {
  message = message_of rt call;
  zap_level = l;
  time = rt.now;
  logger_name = d.name_to_emit;
  caller = some (rt.caller_at (d.caller_skip + 2));
  stack =
      if leb (rank (level_of l)) (rank (option_stacktrace (set_default_option options)))
      then some rt.stack_trace
      else none;
}

module _ (host : Host) (options : Options) (logging : Logging) where
  module _ (rt : Runtime) (quiet : (s : Sink) (e : Entry) → rt.write_error s e ≡ none) where
    emitted :
        (o : Options) (lo st : Level) (d : Scope) (l : ZapLevel) (b : Bool) (msg : Str)
        (fields : List Str)
        → emit rt (configured_scope o lo st d) l b msg fields
          ≡ routed o (entry_of rt (configured_scope o lo st d) l b msg) fields
    unfolding emit prepared_of prepared routed entry_of
    emitted o lo st d l b msg fields =
        write-cores rt quiet o.json_encoding (main_sink o)
          (rotate_sink o o.error_rotate_output_path) l
          (entry_of rt (configured_scope o lo st d) l b msg) fields (prepared_of o).error_sink refl

    logged :
        (lo st : Level) (d : Scope) (l : ZapLevel) (call : LogCall)
        → string_level (set_default_option options).output_level ≡ some lo
        → string_level (set_default_option options).stacktrace_level ≡ some st
        → default_log rt l (configured_scope (set_default_option options) lo st d) call ≡ (
            if leb (rank (level_of l)) (rank (option_level (set_default_option options)))
            then routed
                (set_default_option options)
                (entry_after options rt d l call)
                (fields_of call)
            else [])
    unfolding default_log option_level option_stacktrace set_default_option entry_of
    logged lo st d l call e f =
        let o : Options = set_default_option options in
        elim (Bool-cases (leb (rank (level_of l)) (rank lo))) [
          | inl g ↦
              rw (e, f, g)
                (emitted o lo st d l (leb (rank (level_of l)) (rank st)) (message_of rt call)
                  (fields_of call))
          | inr g ↦ rw (e, g) refl
        ]

    -- If the default scope is registered, the configuration succeeds and no write fails, then a
    -- call writes if its level is at or above the output level of the completed options: to the
    -- main sink, from the level of errors on also to the rotated error file, and a fatal call ends
    -- the process. The entry has the caller, and the stack if its level is at or above the
    -- stack trace level.
    pub default_log-configure :
        (d s : Scope)
        → Found logging.scopes d
        → (configure host options logging).error ≡ none
        → Found (configure host options logging).logging.scopes s
        → (l : ZapLevel) (call : LogCall)
        → default_log rt l s call ≡ (
            if leb (rank (level_of l)) (rank (option_level (set_default_option options)))
            then routed
                (set_default_option options)
                (entry_after options rt d l call)
                (fields_of call)
            else [])
    default_log-configure d s h f g l call = elim (branches host options logging d h) [
      | inr (a, e, f', r, u, v) ↦ absurd (some_ne_none _ e f' f)
      | inl (a, lo, st, e, e', f', g') ↦
          ap (λ t. default_log rt l t call) (of_some s _ (sym g ∙ g')) ∙ logged lo st d l call e e'
    ]
