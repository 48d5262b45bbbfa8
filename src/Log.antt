-- ===== src/Log.antt =====
-- pkg/log: the levels and the options of the logging package (options.go).
pub mod Output
pub mod Scope
pub mod Prepare
pub mod Configure
pub mod Routing
pub mod Replaced
pub mod Configured
pub mod Logged
pub mod Registry
pub mod Date
pub mod Stacks
pub mod Verified
pub mod Started
use polaris_sidecar.Prelude.{
  Bool, List, Option, [], false, if◌then◌else◌, is_empty, none, refl, some, true, ℕ, ◌∷◌, ◌≡◌,
}
use polaris_sidecar.Prelude.Assoc.{Assoc, lookup}
use polaris_sidecar.Prelude.Int.{is_zero, pos, ℤ}
use polaris_sidecar.Prelude.Text.{Str, codes, str_eq}

pub data Level : Type 0 where
  none_level fatal_level error_level warn_level info_level debug_level : Level

-- The numbers of the constants.
abbrev pub rank : Level → ℕ
rank none_level = 0
rank fatal_level = 1
rank error_level = 2
rank warn_level = 3
rank info_level = 4
rank debug_level = 5

-- `levelToString`
unfoldable pub level_to_string : Level → Str
level_to_string debug_level = codes "debug"
level_to_string info_level = codes "info"
level_to_string warn_level = codes "warn"
level_to_string error_level = codes "error"
level_to_string fatal_level = codes "fatal"
level_to_string none_level = codes "none"

-- `stringToLevel`, and its lookup.
abbrev pub level_table : Assoc Level
level_table =
    (codes "debug", debug_level)
    ∷ (codes "info", info_level)
    ∷ (codes "warn", warn_level)
    ∷ (codes "error", error_level)
    ∷ (codes "fatal", fatal_level)
    ∷ (codes "none", none_level)
    ∷ []

unfoldable pub string_level : Str → Option Level
unfolding lookup str_eq
string_level s = lookup s level_table

pub string_level-level_to_string : (l : Level) → string_level (level_to_string l) ≡ some l
unfolding string_level level_to_string
string_level-level_to_string none_level = refl
string_level-level_to_string fatal_level = refl
string_level-level_to_string error_level = refl
string_level-level_to_string warn_level = refl
string_level-level_to_string info_level = refl
string_level-level_to_string debug_level = refl

pub record Options : Type 0 where
  pub output_paths : List Str
  pub error_output_paths : List Str
  pub rotate_output_path : Str
  pub error_rotate_output_path : Str
  pub rotation_max_size : ℤ
  pub rotation_max_age : ℤ
  pub rotation_max_backups : ℤ
  pub json_encoding : Bool
  pub output_level : Str
  pub stacktrace_level : Str
  pub log_caller : Bool

abbrev pub default_logger_name : Str
default_logger_name = codes "default"

unfoldable pub default_options : Options
unfolding level_to_string
default_options = record {
  output_paths = codes "stdout" ∷ [];
  error_output_paths = codes "stderr" ∷ [];
  rotate_output_path = codes "logs/polaris-sidecar.log";
  error_rotate_output_path = codes "logs/polaris-sidecar-error.log";
  rotation_max_size = pos 100;
  rotation_max_age = pos 7;
  rotation_max_backups = pos 10;
  json_encoding = false;
  output_level = level_to_string info_level;
  stacktrace_level = level_to_string none_level;
  log_caller = false;
}

pub data LogError : Type 0 where
  invalid_log_level invalid_stack_level : LogError
  unknown_logger unknown_output_level unknown_stack_level : Str → LogError
  cannot_parse cannot_create : Str → LogError
  cannot_open : List Str → LogError

-- `SetOutputLevel` and `SetStacktraceLevel`: the options, and the error if there is one.
unfoldable pub set_option_level : Options → Str → Options × Option LogError
unfolding string_level
set_option_level o level = elim (string_level level) [
  | none ↦ (o, some invalid_log_level)
  | some l ↦ (record o { output_level = level }, none)
]

unfoldable pub set_option_stacktrace : Options → Str → Options × Option LogError
unfolding string_level
set_option_stacktrace o level = elim (string_level level) [
  | none ↦ (o, some invalid_stack_level)
  | some l ↦ (record o { stacktrace_level = level }, none)
]

-- A level that the table lacks reads as the zero of Go, which is `none_level`.
abbrev pub level_or_zero : Option Level → Level
level_or_zero none = none_level
level_or_zero (some l) = l

unfoldable pub option_level : Options → Level
unfolding string_level
option_level o = level_or_zero (string_level o.output_level)

unfoldable pub option_stacktrace : Options → Level
unfolding string_level
option_stacktrace o = level_or_zero (string_level o.stacktrace_level)

abbrev or_number : ℤ → ℤ → ℤ
or_number n d = if is_zero n then d else n

abbrev pub or_level : Str → Level → Str
or_level s l = if is_empty s then level_to_string l else s

-- `setDefaultOption` of config.go
unfoldable pub set_default_option : Options → Options
unfolding level_to_string
set_default_option o = record o {
  rotation_max_size = or_number o.rotation_max_size (pos 100);
  rotation_max_age = or_number o.rotation_max_age (pos 7);
  rotation_max_backups = or_number o.rotation_max_backups (pos 10);
  output_level = or_level o.output_level info_level;
  stacktrace_level = or_level o.stacktrace_level none_level;
  log_caller = true;
}
