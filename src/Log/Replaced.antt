-- ===== src/Log/Replaced.antt =====
-- The steps of `Configure` of pkg/log/config.go: `prepZap`, and the scope that it updates.
use polaris_sidecar.Log.{
  Level, LogError, Options, cannot_open, default_logger_name, or_level, string_level,
  string_level-level_to_string, unknown_output_level, unknown_stack_level,
}
use polaris_sidecar.Log.Configure.{Logging, replace_globals, update_scope, update_scopes}
use polaris_sidecar.Log.Prepare.{Host, Prepared, create_path_if_not_exist, prep_zap}
use polaris_sidecar.Log.Routing.{
  configured_scope, create_usable, prep_output_lem, prepared_of, sinks_ready,
}
use polaris_sidecar.Log.Scope.{Scope, find_scope}
use polaris_sidecar.Prelude.{
  Bool, Bool-cases, Option, Option-cases, [], ap, arith, false, inl, inr, is_empty, none, refl,
  some, true, ◌||◌, ◌∷◌, ◌≡◌, ◌⊎◌,
}
use polaris_sidecar.Prelude.Assoc.{insert, lookup}
use polaris_sidecar.Prelude.Text.{Str}

abbrev pub is_some {ℓ} : {A : Type ℓ} → Option A → Bool
is_some none = false
is_some (some a) = true

-- A level that is left out, or one of the names.
unfoldable pub known : Str → Bool
known s = is_empty s || is_some (string_level s)

pub or_level-known :
    (s : Str) (d : Level)
    → ((known s ≡ true) × (l : Level) × (string_level (or_level s d) ≡ some l))
      ⊎ ((known s ≡ false) × (string_level (or_level s d) ≡ none))
unfolding known
or_level-known [] d = inl (refl, d, string_level-level_to_string d)
or_level-known (c ∷ s) d = elim (Option-cases (string_level (c ∷ s))) [
  | inl e ↦ inr (rw e refl, e)
  | inr (l, e) ↦ inl (rw e refl, l, e)
]

module _ (o : Options) (p : Prepared) (s : Scope) where
  pub update-Ok :
      (l st : Level)
      → string_level o.output_level ≡ some l
      → string_level o.stacktrace_level ≡ some st
      → p ≡ prepared_of o
      → update_scope o p s ≡ (configured_scope o l st s, none)
  unfolding update_scope
  update-Ok l st e f g = rw (e, f, g, update_scope) refl

  pub update-bad_output :
      string_level o.output_level ≡ none
      → update_scope o p s ≡ (s, some (unknown_output_level o.output_level))
  unfolding update_scope
  update-bad_output e = rw (e, update_scope) refl

  pub update-bad_stack :
      (l : Level)
      → string_level o.output_level ≡ some l
      → string_level o.stacktrace_level ≡ none
      → update_scope o p s
        ≡ (record s { output_level = l }, some (unknown_stack_level o.stacktrace_level))
  unfolding update_scope
  update-bad_stack l e f = rw (e, f, update_scope) refl

module _ (host : Host) where
  pub prep_zap_lem :
      (o : Options)
      → ((sinks_ready host o ≡ true) × ((prep_zap host o).1 ≡ inl (prepared_of o)))
        ⊎ ((sinks_ready host o ≡ false) × (e : LogError) × ((prep_zap host o).1 ≡ inr e))
  unfolding prep_zap sinks_ready
  prep_zap_lem o = elim (Option-cases (create_path_if_not_exist host o.error_output_paths).1) [
    | inr (x, f) ↦
        inr (ground (arith, create_usable host o.error_output_paths), x, rw (f, prep_zap) refl)
    | inl f ↦ elim (Bool-cases (host.open_all o.error_output_paths)) [
      | inr g ↦ inr (ground arith, cannot_open o.error_output_paths, rw (f, g, prep_zap) refl)
      | inl g ↦ elim (prep_output_lem host o) [
        | inl (h, e) ↦
            inl (ground (arith, create_usable host o.error_output_paths), rw (f, g, prep_zap) e)
        | inr (h, x, e) ↦ inr (ground arith, x, rw (f, g, prep_zap) e)
      ]
    ]
  ]

module _ (o : Options) (p : Prepared) (logging : Logging) (d : Scope) where
  update_scopes-found :
      lookup default_logger_name logging.scopes ≡ some d
      → (s : Scope) (e : Option LogError) → update_scope o p d ≡ (s, e)
      → update_scopes default_logger_name o p logging.scopes
        ≡ (insert default_logger_name s logging.scopes, e)
  unfolding update_scopes find_scope
  update_scopes-found h s e u = rw (h, u, update_scopes, find_scope) refl

  pub replace_globals-stopped :
      lookup default_logger_name logging.scopes ≡ some d
      → (s : Scope) (x : LogError) → update_scope o p d ≡ (s, some x)
      → ((replace_globals o p logging).1 ≡ some x)
        × ((replace_globals o p logging).0.scopes ≡ insert default_logger_name s logging.scopes)
        × ((replace_globals o p logging).0.captured ≡ logging.captured)
  unfolding replace_globals
  replace_globals-stopped h s x u =
      let f = update_scopes-found h s (some x) u in
      (
        rw (f, replace_globals) refl,
        rw (f, replace_globals) (ap (λ t. t.0) f),
        rw (f, replace_globals) refl,
      )

  pub replace_globals-found :
      lookup default_logger_name logging.scopes ≡ some d
      → (s : Scope) → update_scope o p d ≡ (s, none)
      → ((replace_globals o p logging).1 ≡ none)
        × ((replace_globals o p logging).0.scopes ≡ insert default_logger_name s logging.scopes)
  unfolding replace_globals
  replace_globals-found h s u =
      let f = update_scopes-found h s none u in
      (rw (f, replace_globals) refl, rw (f, replace_globals) (ap (λ t. t.0) f))
