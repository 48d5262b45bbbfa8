-- ===== src/Log/Output.antt =====
-- pkg/log/config.go: what an entry is written to. A core of zap is its sink, the format and the
-- level that it is enabled from, and the patch table of a scope is its cores and its error sink.
use polaris_sidecar.Log.{
  Level, debug_level, error_level, fatal_level, info_level, none_level, warn_level,
}
use polaris_sidecar.Prelude.{
  Bool, List, Option, [], if◌then◌else◌, leb, none, some, ℕ, ◌++◌, ◌==◌, ◌∷◌,
}
use polaris_sidecar.Prelude.Int.{ℤ}
use polaris_sidecar.Prelude.Text.{Str}

-- The levels of zap that the package gives to an entry. `levelToZap` has one more for `none_level`,
-- 100, which no entry reaches.
pub data ZapLevel : Type 0 where
  zap_debug zap_info zap_warn zap_error zap_fatal : ZapLevel

-- The numbers of zap, plus one.
abbrev pub zap_rank : ZapLevel → ℕ
zap_rank zap_debug = 0
zap_rank zap_info = 1
zap_rank zap_warn = 2
zap_rank zap_error = 3
zap_rank zap_fatal = 6

unfoldable pub level_to_zap : Level → Option ZapLevel
level_to_zap debug_level = some zap_debug
level_to_zap info_level = some zap_info
level_to_zap warn_level = some zap_warn
level_to_zap error_level = some zap_error
level_to_zap fatal_level = some zap_fatal
level_to_zap none_level = none

-- `lumberjack.Logger`
pub record Rotation : Type 0 where
  pub filename : Str
  pub max_size : ℤ
  pub max_backups : ℤ
  pub max_age : ℤ

-- `os.Stdout`, what `zap.Open` gives, a rotated file, and `zapcore.NewMultiWriteSyncer`.
pub data Sink : Type 0 where
  std_out : Sink
  opened_paths : List Str → Sink
  rotated : Rotation → Sink
  multi : Sink → Sink → Sink

pub record Core : Type 0 where
  pub sink : Sink
  pub json : Bool
  pub min_level : ZapLevel

pub record Entry : Type 0 where
  pub message : Str
  pub zap_level : ZapLevel
  pub time : Str
  pub logger_name : Str
  pub caller : Option Str
  pub stack : Option Str

pub record PatchTable : Type 0 where
  pub cores : List Core
  pub error_sink : Sink

-- What a call does, in its order.
pub data LogEvent : Type 0 where
  wrote : Sink → Entry → List Str → LogEvent
  synced : Sink → LogEvent
  reported : Sink → List Str → LogEvent
  exited : ℕ → LogEvent

-- `core.Enabled`
unfoldable pub core_enabled : Core → ZapLevel → Bool
core_enabled c l = leb (zap_rank c.min_level) (zap_rank l)

abbrev with_error : Option Str → List Str → List Str
with_error none errs = errs
with_error (some e) errs = e ∷ errs

-- `write_error` is what `core.Write` returns.
module _ (write_error : Sink → Entry → Option Str) where
  -- The loop of `write` over the cores, with its errors.
  unfoldable pub write_cores : List Core → Entry → List Str → List LogEvent × List Str
  unfolding core_enabled
  write_cores [] ent fields = ([], [])
  write_cores (c ∷ cs) ent fields =
      let (events, errs) = write_cores cs ent fields in
      if core_enabled c ent.zap_level
      then (wrote c.sink ent fields ∷ events, with_error (write_error c.sink ent) errs)
      else (events, errs)

  -- `patchTable.write`: the errors, or `none` if the process has exited.
  unfoldable pub write : PatchTable → Entry → List Str → List LogEvent × Option (List Str)
  unfolding write_cores
  write pt ent fields =
      let (events, errs) = write_cores pt.cores ent fields in
      if zap_rank ent.zap_level == zap_rank zap_fatal
      then (events ++ exited 1 ∷ [], none)
      else (events, some errs)

-- `patchTable.sync`, with the errors of `core.Sync`.
unfoldable pub sync_cores : (Sink → Option Str) → List Core → List LogEvent × List Str
sync_cores sync_error [] = ([], [])
sync_cores sync_error (c ∷ cs) =
    let (events, errs) = sync_cores sync_error cs in
    (synced c.sink ∷ events, with_error (sync_error c.sink) errs)
