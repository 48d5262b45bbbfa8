-- ===== src/Log/Started.antt =====
-- The state of pkg/log before the program configures it.
use polaris_sidecar.Log.{
  default_logger_name, default_options, level_to_string, set_default_option, string_level,
}
use polaris_sidecar.Log.Configure.{Logging, configure, init_log, sync_log}
use polaris_sidecar.Log.Configured.{Found, branches}
use polaris_sidecar.Log.Output.{PatchTable, Sink}
use polaris_sidecar.Log.Prepare.{Host}
use polaris_sidecar.Log.Replaced.{is_some, known}
use polaris_sidecar.Log.Routing.{sinks_ready}
use polaris_sidecar.Log.Scope.{Scope, contains_any, new_scope, register_scope}
use polaris_sidecar.Prelude.{
  Option, [], ap, arith, false, inl, inr, none, of_some, panic, refl, some, sym, true, ◌&&◌, ◌↔◌,
  ◌∙◌, ◌∷◌, ◌≡◌,
}
use polaris_sidecar.Prelude.Assoc.{insert, lookup}
use polaris_sidecar.Prelude.Text.{Str, codes, str_eq}

abbrev first_scope : Scope
first_scope = new_scope default_logger_name (codes "Unscoped logging messages.") 0

abbrev registered : Logging
registered = record { scopes = (default_logger_name, first_scope) ∷ []; captured = none }

registered-Found : Found registered.scopes first_scope
unfolding lookup str_eq
registered-Found = refl

init_log_step : (host : Host) → init_log host ≡ (configure host default_options registered).logging
unfolding init_log register_scope contains_any lookup insert
init_log_step host = refl

sync-some :
    (f : Sink → Option Str) (s : Scope) (o : Option PatchTable)
    → s.pt ≡ o
    → (sync_log f s ≡ panic) ↔ (is_some o ≡ false)
unfolding sync_log
sync-some f s none h = rw h ((λ e. refl), λ e. refl)
sync-some f s (some pt) h = rw h ((λ e. cc), λ e. cc)

defaults-known : known default_options.output_level && known default_options.stacktrace_level ≡ true
unfolding known default_options string_level level_to_string lookup str_eq
defaults-known = refl

first_pt : first_scope.pt ≡ none
unfolding new_scope
first_pt = refl

pt_of :
    (host : Host) (s t : Scope)
    → Found (init_log host).scopes s
    → Found (configure host default_options registered).logging.scopes t
    → s.pt ≡ t.pt
pt_of host s t h g =
    ap (λ x. x.pt)
      (of_some s t (sym h ∙ ap (λ x. lookup default_logger_name x.scopes) (init_log_step host) ∙ g))

-- Right after the start, a flush of the default scope panics exactly if the files of the default
-- options cannot be opened.
pub sync_log-init_log :
    (host : Host) (sync_error : Sink → Option Str) (s : Scope)
    → Found (init_log host).scopes s
    → (sync_log sync_error s ≡ panic)
      ↔ (sinks_ready host (set_default_option default_options) ≡ false)
sync_log-init_log host sync_error s h =
    elim (branches host default_options registered first_scope registered-Found) [
      | inl (a, lo, st, e, e', f, g) ↦
          ground (arith, defaults-known, sync-some sync_error s _ (pt_of host s _ h g))
      | inr (a, e, f, l, g, u) ↦
          ground (arith, defaults-known, sync-some sync_error s _ (pt_of host s _ h g ∙ first_pt))
    ]
