-- ===== src/Log/Routing.antt =====
-- Where a configured logger writes (pkg/log): the cores of config.go behind the calls of default.go.
use polaris_sidecar.Log.{Level, LogError, Options, cannot_open}
use polaris_sidecar.Log.Output.{
  Entry, LogEvent, PatchTable, Sink, ZapLevel, core_enabled, exited, opened_paths, write,
  write_cores, wrote, zap_debug, zap_error, zap_fatal, zap_info, zap_rank, zap_warn,
}
use polaris_sidecar.Log.Prepare.{
  Host, Prepared, choose_sink, create_path_if_not_exist, error_core, is_local, main_core,
  prep_output, prepared, rotate_sink,
}
use polaris_sidecar.Log.Scope.{Runtime, Scope, report_errors}
use polaris_sidecar.Prelude.{
  Bool, Bool-cases, List, Option, Option-cases, [], ap, arith, false, if◌then◌else◌, inl, inr,
  is_empty, leb, none, not, refl, some, sym, true, ◌&&◌, ◌++◌, ◌||◌, ◌↔◌, ◌∙◌, ◌∷◌, ◌≡◌, ◌⊎◌,
}
use polaris_sidecar.Prelude.Text.{Str}

-- The sinks that the options ask for.
abbrev pub wanted_output : Options → Option Sink
wanted_output o = if is_empty o.output_paths then none else some (opened_paths o.output_paths)

abbrev pub main_sink : Options → Sink
main_sink o = choose_sink (rotate_sink o o.rotate_output_path) (wanted_output o)

abbrev error_writes : Option Sink → Entry → List Str → List LogEvent
error_writes none e fields = []
error_writes (some s) e fields = if leb 3 (zap_rank e.zap_level) then wrote s e fields ∷ [] else []

abbrev exits : ZapLevel → List LogEvent
exits zap_fatal = exited 1 ∷ []
exits _ = []

-- An entry goes to the main sink, from the level of errors on also to the rotated error file, and a
-- fatal one ends the process.
unfoldable pub routed : Options → Entry → List Str → List LogEvent
routed o e fields =
    wrote (main_sink o) e fields
    ∷ (error_writes (rotate_sink o o.error_rotate_output_path) e fields ++ exits e.zap_level)

unfoldable pub prepared_of : Options → Prepared
prepared_of o = prepared o (wanted_output o) (opened_paths o.error_output_paths)

module _ (host : Host) where
  -- The directory of a path can be made, if it is a path of a file.
  abbrev pub usable : Str → Bool
  usable p = elim (host.parse_url p) [
    | none ↦ false
    | some u ↦ not (is_local u) || host.mkdir_all (host.dir u.path)
  ]

  unfoldable pub all_usable : List Str → Bool
  all_usable [] = true
  all_usable (p ∷ ps) = usable p && all_usable ps

  -- The sinks can be opened; output paths are only opened if there are some.
  unfoldable pub sinks_ready : Options → Bool
  unfolding all_usable
  sinks_ready o =
      all_usable o.error_output_paths
      && host.open_all o.error_output_paths
      && (is_empty o.output_paths || (all_usable o.output_paths && host.open_all o.output_paths))

  pub create_usable :
      (ps : List Str) → (all_usable ps ≡ true) ↔ ((create_path_if_not_exist host ps).1 ≡ none)
  unfolding all_usable create_path_if_not_exist
  create_usable [] = ground arith
  create_usable (p ∷ ps) = elim (Option-cases (host.parse_url p)) [
    | inl e ↦ rw (e, create_path_if_not_exist, all_usable) (ground arith)
    | inr (u, e) ↦
        rw (e, create_path_if_not_exist, all_usable)
          (elim (Bool-cases (is_local u)) [
            | inl l ↦ rw l (elim (Bool-cases (host.mkdir_all (host.dir u.path))) [
              | inl m ↦ rw m (ground (arith, create_usable ps))
              | inr m ↦ rw m (ground arith)
            ])
            | inr l ↦ rw l (ground (arith, create_usable ps))
          ])
  ]

  abbrev pub outputs_ready : Options → Bool
  outputs_ready o =
      is_empty o.output_paths || (all_usable o.output_paths && host.open_all o.output_paths)

  with_sink :
      (o : Options) (s : Option Sink)
      → wanted_output o ≡ s
      → ◌≡◌ {A = Prepared ⊎ LogError}
          (inl (prepared o s (opened_paths o.error_output_paths)))
          (inl (prepared_of o))
  unfolding prepared_of
  with_sink o s h = ap (λ t. inl (prepared o t (opened_paths o.error_output_paths))) (sym h)

  prep_output-empty :
      (o : Options)
      → is_empty o.output_paths ≡ true
      → (prep_output host o).1 ≡ inl (prepared o none (opened_paths o.error_output_paths))
  unfolding prep_output
  prep_output-empty o h = rw h refl

  prep_output-some :
      (o : Options)
      → is_empty o.output_paths ≡ false
      → (create_path_if_not_exist host o.output_paths).1 ≡ none
      → host.open_all o.output_paths ≡ true
      → (prep_output host o).1
        ≡ inl (prepared o (some (opened_paths o.output_paths)) (opened_paths o.error_output_paths))
  unfolding prep_output
  prep_output-some o e f g = rw (e, f, g, prep_output) refl

  pub prep_output_lem :
      (o : Options)
      → ((outputs_ready o ≡ true) × ((prep_output host o).1 ≡ inl (prepared_of o)))
        ⊎ ((outputs_ready o ≡ false) × (e : LogError) × ((prep_output host o).1 ≡ inr e))
  unfolding prep_output
  prep_output_lem o = elim (Bool-cases (is_empty o.output_paths)) [
    | inl e ↦ inl (ground arith, prep_output-empty o e ∙ with_sink o none (rw e refl))
    | inr e ↦ elim (Option-cases (create_path_if_not_exist host o.output_paths).1) [
      | inr (x, f) ↦
          inr (ground (arith, create_usable o.output_paths), x, rw (e, f, prep_output) refl)
      | inl f ↦ elim (Bool-cases (host.open_all o.output_paths)) [
        | inl g ↦ inl (
          ground (arith, create_usable o.output_paths),
          prep_output-some o e f g ∙ with_sink o (some (opened_paths o.output_paths)) (rw e refl),
        )
        | inr g ↦ inr (
          ground (arith, create_usable o.output_paths),
          cannot_open o.output_paths,
          rw (e, f, g, prep_output) refl,
        )
      ]
    ]
  ]

-- The scope that `updateScopes` leaves.
abbrev pub configured_scope : Options → Level → Level → Scope → Scope
configured_scope o l st s = record s {
  output_level = l;
  stack_trace_level = st;
  pt = some (record { cores = (prepared_of o).cores; error_sink = (prepared_of o).error_sink });
  log_callers = o.log_caller;
}

module _ (rt : Runtime) (quiet : (s : Sink) (e : Entry) → rt.write_error s e ≡ none) where
  pub write-cores :
      (j : Bool) (m : Sink) (r : Option Sink) (l : ZapLevel) (e : Entry) (fields : List Str)
      (t : Sink)
      → e.zap_level ≡ l
      → let pt : PatchTable = record { cores = main_core j m ∷ error_core j r; error_sink = t } in
        report_errors pt (write rt.write_error pt e fields)
        ≡ wrote m e fields ∷ (error_writes r e fields ++ exits l)
  unfolding write write_cores core_enabled
  write-cores j m none zap_fatal e fields t h = simp (h, quiet)
  write-cores j m none zap_error e fields t h = simp (h, quiet)
  write-cores j m none zap_warn e fields t h = simp (h, quiet)
  write-cores j m none zap_info e fields t h = simp (h, quiet)
  write-cores j m none zap_debug e fields t h = simp (h, quiet)
  write-cores j m (some s) zap_fatal e fields t h = simp (h, quiet)
  write-cores j m (some s) zap_error e fields t h = simp (h, quiet)
  write-cores j m (some s) zap_warn e fields t h = simp (h, quiet)
  write-cores j m (some s) zap_info e fields t h = simp (h, quiet)
  write-cores j m (some s) zap_debug e fields t h = simp (h, quiet)
