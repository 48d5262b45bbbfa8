-- ===== src/Log/Configured.antt =====
-- What `Configure` of pkg/log/config.go leaves: when it succeeds, and what is logged after it.
use polaris_sidecar.Log.{
  Level, LogError, Options, default_logger_name, info_level, none_level, set_default_option,
  string_level, unknown_output_level, unknown_stack_level,
}
use polaris_sidecar.Log.Configure.{Logging, configure, replace_globals}
use polaris_sidecar.Log.Prepare.{Host, Prepared, prep_zap}
use polaris_sidecar.Log.Replaced.{
  known, or_level-known, prep_zap_lem, replace_globals-found, replace_globals-stopped, update-Ok,
  update-bad_output, update-bad_stack,
}
use polaris_sidecar.Log.Routing.{configured_scope, prepared_of, sinks_ready}
use polaris_sidecar.Log.Scope.{Scope}
use polaris_sidecar.Prelude.{
  Bool, Option, ap, arith, false, inl, inr, none, refl, some, true, ◌&&◌, ◌↔◌, ◌∙◌, ◌≡◌, ◌≢◌, ◌⊎◌,
}
use polaris_sidecar.Prelude.Assoc.{Assoc, insert, lookup, lookup-insert}
use polaris_sidecar.Prelude.Text.{str_eq_refl}

-- The registry holds this scope under the default name.
abbrev pub Found : Assoc Scope → Scope → Type 0
Found scopes s = lookup default_logger_name scopes ≡ some s

pub some_ne_none : (o : Option LogError) (e : LogError) → o ≡ some e → o ≢ none
some_ne_none o e h g = cc

true_ne_false : (b : Bool) → b ≡ true → b ≢ false
true_ne_false b h g = cc

module _ (host : Host) (options : Options) (logging : Logging) where
  configure-stops :
      (e : LogError)
      → (prep_zap host (set_default_option options)).1 ≡ inr e
      → ((configure host options logging).error ≡ some e)
        × ((configure host options logging).logging ≡ logging)
  unfolding configure
  configure-stops e h = (rw (h, configure) refl, rw (h, configure) refl)

  configure-goes_on :
      (p : Prepared)
      → (prep_zap host (set_default_option options)).1 ≡ inl p
      → let r = replace_globals (set_default_option options) p logging in
        ((configure host options logging).error ≡ r.1)
        × ((configure host options logging).logging ≡ r.0)
  unfolding configure
  configure-goes_on p h = (rw (h, configure) refl, rw (h, configure) refl)

  found :
      {scopes : Assoc Scope} (s : Scope)
      → scopes ≡ insert default_logger_name s logging.scopes
      → Found scopes s
  found s h =
      ap (λ t. lookup default_logger_name t) h
      ∙ lookup-insert default_logger_name default_logger_name s logging.scopes
      ∙ rw (str_eq_refl default_logger_name) refl

  -- What each branch does to the default scope.
  pub branches :
      (d : Scope)
      → lookup default_logger_name logging.scopes ≡ some d
      → let o = set_default_option options in
        let r = configure host options logging in
        ((known options.output_level && known options.stacktrace_level && sinks_ready host o ≡ true)
          × (l : Level) × (st : Level) × (string_level o.output_level ≡ some l)
          × (string_level o.stacktrace_level ≡ some st)
          × (r.error ≡ none)
          × Found r.logging.scopes (configured_scope o l st d))
        ⊎ ((known options.output_level && known options.stacktrace_level && sinks_ready host o
              ≡ false)
            × (e : LogError) × (r.error ≡ some e)
            × (l : Level) × Found r.logging.scopes (record d { output_level = l })
            × (r.logging.captured ≡ logging.captured))
  unfolding set_default_option
  branches d h =
      let o : Options = set_default_option options in
      elim (prep_zap_lem host o) [
        | inr (n, e, f) ↦
            let (c, k) = configure-stops e f in
            inr (
              ground arith,
              e,
              c,
              d.output_level,
              ap (λ t. lookup default_logger_name t.scopes) k ∙ h,
              ap (λ t. t.captured) k,
            )
        | inl (n, f) ↦
            let (c, c') = configure-goes_on (prepared_of o) f in
            elim (or_level-known options.output_level info_level) [
              | inr (k, e) ↦
                  let (u, v, w) =
                    replace_globals-stopped o (prepared_of o) logging d h d
                      (unknown_output_level o.output_level)
                      (update-bad_output o (prepared_of o) d e) in
                  inr (
                    ground arith,
                    unknown_output_level o.output_level,
                    c ∙ u,
                    d.output_level,
                    found _ (ap (λ t. t.scopes) c' ∙ v),
                    ap (λ t. t.captured) c' ∙ w,
                  )
              | inl (k, l, e) ↦ elim (or_level-known options.stacktrace_level none_level) [
                | inr (k', e') ↦
                    let (u, v, w) =
                      replace_globals-stopped o (prepared_of o) logging d h _
                        (unknown_stack_level o.stacktrace_level)
                        (update-bad_stack o (prepared_of o) d l e e') in
                    inr (
                      ground arith,
                      unknown_stack_level o.stacktrace_level,
                      c ∙ u,
                      l,
                      found _ (ap (λ t. t.scopes) c' ∙ v),
                      ap (λ t. t.captured) c' ∙ w,
                    )
                | inl (k', st, e') ↦
                    let (u, v) =
                      replace_globals-found o (prepared_of o) logging d h _
                        (update-Ok o (prepared_of o) d l st e e' refl) in
                    inl (ground arith, l, st, e, e', c ∙ u, found _ (ap (λ t. t.scopes) c' ∙ v))
              ]
            ]
      ]

  -- If the default scope is registered, the configuration succeeds exactly if both levels are left
  -- out or have a known name, the directories of all paths can be made, and the paths can be opened.
  pub configure_lem :
      (d : Scope)
      → Found logging.scopes d
      → ((configure host options logging).error ≡ none) ↔ (
          known options.output_level
            && known options.stacktrace_level
            && sinks_ready host (set_default_option options)
          ≡ true)
  configure_lem d h = elim (branches d h) [
    | inl (a, l, st, e, e', f, g) ↦ ((λ x. a), λ x. f)
    | inr (a, e, f, r, u, v) ↦
        ((λ x. absurd (some_ne_none _ e f x)), λ x. absurd (true_ne_false _ x a))
  ]

  -- If the default scope is registered and the configuration fails, of the scope only the output
  -- level may have changed, and the global logger of zap is as it was.
  pub configure-failed :
      (d : Scope) (e : LogError)
      → Found logging.scopes d
      → (configure host options logging).error ≡ some e
      → let r = (configure host options logging).logging in
        (l : Level) × Found r.scopes (record d { output_level = l })
        × (r.captured ≡ logging.captured)
  configure-failed d e h f = elim (branches d h) [
    | inl (a, l, st, x, y, g, r) ↦ absurd (some_ne_none _ e f g)
    | inr (a, e', g, r, u, v) ↦ (r, u, v)
  ]
