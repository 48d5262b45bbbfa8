-- ===== src/Log/Scope.antt =====
-- pkg/log/scope.go and default.go: the scopes, their registry, and the calls that log. `defaultScope`
-- is the scope that the registry holds under the default name.
use polaris_sidecar.Log.{
  Level, debug_level, default_logger_name, error_level, fatal_level, info_level, none_level, rank,
  warn_level,
}
use polaris_sidecar.Log.Output.{
  Entry, LogEvent, PatchTable, Sink, ZapLevel, reported, synced, write, zap_debug, zap_error,
  zap_fatal, zap_info, zap_warn,
}
use polaris_sidecar.Prelude.{
  Bool, List, Option, Outcome, [], done, false, if◌then◌else◌, is_empty, leb, none, panic, some, ℕ,
  ◌++◌, ◌+◌, ◌==◌, ◌||◌, ◌∷◌,
}
use polaris_sidecar.Prelude.Assoc.{Assoc, insert, lookup}
use polaris_sidecar.Prelude.Text.{Str, str_eq}

pub record Scope : Type 0 where
  pub name : Str
  pub name_to_emit : Str
  pub description : Str
  pub caller_skip : ℕ
  pub output_level : Level
  pub stack_trace_level : Level
  pub log_callers : Bool
  pub pt : Option PatchTable

-- `strings.ContainsAny(name, ":,.")`
unfoldable pub contains_any : Str → Bool
contains_any [] = false
contains_any (c ∷ s) = c == b':' || c == b',' || c == b'.' || contains_any s

unfoldable pub new_scope : Str → Str → ℕ → Scope
unfolding str_eq
new_scope name description caller_skip = record {
  name = name;
  name_to_emit = if str_eq name default_logger_name then [] else name;
  description = description;
  caller_skip = caller_skip;
  output_level = info_level;
  stack_trace_level = none_level;
  log_callers = false;
  pt = none;
}

-- `RegisterScope`, with the registry it leaves.
unfoldable pub register_scope : Str → Str → ℕ → Assoc Scope → Outcome (Scope × Assoc Scope)
unfolding contains_any new_scope
register_scope name description caller_skip scopes =
    if contains_any name
    then panic
    else done (elim (lookup name scopes) [
      | some s ↦ (s, scopes)
      | none ↦ let s = new_scope name description caller_skip in (s, insert name s scopes)
    ])

unfoldable pub find_scope : Str → Assoc Scope → Option Scope
find_scope name scopes = lookup name scopes

-- The level of a method, by its entries' level.
abbrev pub level_of : ZapLevel → Level
level_of zap_debug = debug_level
level_of zap_info = info_level
level_of zap_warn = warn_level
level_of zap_error = error_level
level_of zap_fatal = fatal_level

-- `FatalEnabled`, `ErrorEnabled`, `WarnEnabled`, `InfoEnabled` and `DebugEnabled`.
unfoldable pub scope_enabled : ZapLevel → Scope → Bool
scope_enabled l s = leb (rank (level_of l)) (rank s.output_level)

-- The three forms of a call: `Fatal`, `Fatala` and `Fatalf`. Fields and arguments are their bytes.
pub data LogCall : Type 0 where
  plain : Str → List Str → LogCall
  printed : List Str → LogCall
  formatted : Str → List Str → LogCall

-- The world: `fmt.Sprint`, `fmt.Sprintf`, the clock, `runtime.Caller`, `zap.Stack`, and what the
-- writes of the cores return.
pub record Runtime : Type 0 where
  pub sprint : List Str → Str
  pub sprintf : Str → List Str → Str
  pub now : Str
  pub caller_at : ℕ → Str
  pub stack_trace : Str
  pub write_error : Sink → Entry → Option Str

-- What `emit` does with the errors of the write.
abbrev pub report_errors : PatchTable → List LogEvent × Option (List Str) → List LogEvent
report_errors pt (events, none) = events
report_errors pt (events, some []) = events
report_errors pt (events, some (e ∷ es)) =
    events ++ reported pt.error_sink (e ∷ es) ∷ synced pt.error_sink ∷ []

abbrev pub fields_of : LogCall → List Str
fields_of (plain msg fields) = fields
fields_of (printed args) = []
fields_of (formatted template args) = []

-- The level that the methods of a scope compare the stack trace level with.
abbrev pub stack_guard : ZapLevel → Level
stack_guard zap_fatal = fatal_level
stack_guard _ = error_level

module _ (rt : Runtime) where
  unfoldable pub message_of : LogCall → Str
  message_of (plain msg fields) = msg
  message_of (printed args) = rt.sprint args
  message_of (formatted template args) =
      if is_empty args then template else rt.sprintf template args

  unfoldable pub entry_of : Scope → ZapLevel → Bool → Str → Entry
  entry_of s level dump_stack msg = record {
    message = msg;
    zap_level = level;
    time = rt.now;
    logger_name = s.name_to_emit;
    caller = if s.log_callers then some (rt.caller_at (s.caller_skip + 2)) else none;
    stack = if dump_stack then some rt.stack_trace else none;
  }

  -- The end of `emit`: a scope that is not configured writes nothing.
  unfoldable pub deliver : Option PatchTable → Entry → List Str → List LogEvent
  unfolding write
  deliver none e fields = []
  deliver (some pt) e fields = report_errors pt (write rt.write_error pt e fields)

  unfoldable pub emit : Scope → ZapLevel → Bool → Str → List Str → List LogEvent
  unfolding entry_of deliver
  emit s level dump_stack msg fields = deliver s.pt (entry_of s level dump_stack msg) fields

  -- The methods of a scope (scope.go).
  unfoldable pub scope_log : ZapLevel → Scope → LogCall → List LogEvent
  unfolding message_of emit
  scope_log level s call =
      if leb (rank (level_of level)) (rank s.output_level)
      then emit s level (leb (rank (stack_guard level)) (rank s.stack_trace_level))
          (message_of call) (fields_of call)
      else []

  -- The functions of the package on the default scope (default.go).
  unfoldable pub default_log : ZapLevel → Scope → LogCall → List LogEvent
  unfolding message_of emit
  default_log level default_scope call =
      if leb (rank (level_of level)) (rank default_scope.output_level)
      then emit default_scope level
          (leb (rank (level_of level)) (rank default_scope.stack_trace_level)) (message_of call)
          (fields_of call)
      else []
