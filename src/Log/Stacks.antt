-- ===== src/Log/Stacks.antt =====
-- The calls on a scope (pkg/log/scope.go) beside the functions of the package (pkg/log/default.go).
use polaris_sidecar.Log.{error_level, rank}
use polaris_sidecar.Log.Output.{
  Core, Entry, LogEvent, PatchTable, Sink, ZapLevel, core_enabled, exited, reported, synced, write,
  write_cores, wrote, zap_debug, zap_error, zap_fatal, zap_info, zap_rank, zap_warn,
}
use polaris_sidecar.Log.Scope.{
  LogCall, Runtime, Scope, default_log, deliver, emit, entry_of, fields_of, level_of, message_of,
  report_errors, scope_log, stack_guard,
}
use polaris_sidecar.Prelude.{
  Bool, Bool-cases, List, Option, [], ap, arith, false, if◌then◌else◌, inl, inr, leb, ltb, map,
  none, not, refl, some, sym, true, ◌&&◌, ◌++◌, ◌==◌, ◌∷◌, ◌≡◌, ◌≢◌,
}
use polaris_sidecar.Prelude.Text.{Str}

-- The stack trace level is error or above, and below the level of the call.
unfoldable pub between : ZapLevel → Scope → Bool
between l s =
    leb (rank error_level) (rank s.stack_trace_level)
    && ltb (rank s.stack_trace_level) (rank (level_of l))

false_ne_true : false ≢ true
false_ne_true h = cc

module _ (rt : Runtime) where
  abbrev pub with_stack : Entry → Entry
  with_stack e = record e { stack = some rt.stack_trace }

  unfoldable pub add_stack : LogEvent → LogEvent
  add_stack (wrote sink e fields) = wrote sink (with_stack e) fields
  add_stack (synced sink) = synced sink
  add_stack (reported sink errs) = reported sink errs
  add_stack (exited n) = exited n

module _ (rt : Runtime) (quiet : (s : Sink) (e : Entry) → rt.write_error s e ≡ none) where
  write_cores-add_stack :
      (cs : List Core) (e : Entry) (fields : List Str)
      → ((write_cores rt.write_error cs (with_stack rt e) fields).0
          ≡ map (add_stack rt) (write_cores rt.write_error cs e fields).0)
        × ((write_cores rt.write_error cs (with_stack rt e) fields).1 ≡ [])
        × ((write_cores rt.write_error cs e fields).1 ≡ [])
  unfolding write_cores core_enabled add_stack
  write_cores-add_stack [] e fields = (refl, refl, refl)
  write_cores-add_stack (c ∷ cs) e fields =
      let (f, g, h) = write_cores-add_stack cs e fields in
      elim (Bool-cases (leb (zap_rank c.min_level) (zap_rank e.zap_level))) [
        | inr k ↦ simp (k, f, g, h) (refl, refl, refl)
        | inl k ↦ simp (k, f, g, h, quiet) (refl, refl, refl)
      ]

  map_append :
      (xs ys : List LogEvent)
      → map (add_stack rt) (xs ++ ys) ≡ map (add_stack rt) xs ++ map (add_stack rt) ys
  map_append [] ys = refl
  map_append (x ∷ xs) ys = ap (λ t. add_stack rt x ∷ t) (map_append xs ys)

  write-add_stack :
      (pt : PatchTable) (e : Entry) (fields : List Str)
      → report_errors pt (write rt.write_error pt (with_stack rt e) fields)
        ≡ map (add_stack rt) (report_errors pt (write rt.write_error pt e fields))
  unfolding write add_stack
  write-add_stack pt e fields =
      let (f, g, h) = write_cores-add_stack pt.cores e fields in
      elim (Bool-cases (zap_rank e.zap_level == 6)) [
        | inl k ↦ simp (k, f, g, h) (sym (map_append _ _))
        | inr k ↦ simp (k, f, g, h) refl
      ]

  deliver-add_stack :
      (o : Option PatchTable) (e : Entry) (fields : List Str)
      → deliver rt o (with_stack rt e) fields ≡ map (add_stack rt) (deliver rt o e fields)
  unfolding deliver
  deliver-add_stack none e fields = refl
  deliver-add_stack (some pt) e fields = write-add_stack pt e fields

  emit-add_stack :
      (s : Scope) (l : ZapLevel) (msg : Str) (fields : List Str) (a b c : Bool)
      → c ≡ (a && not b)
      → (b ≡ true → a ≡ true)
      → emit rt s l a msg fields
        ≡ (if c then map (add_stack rt) (emit rt s l b msg fields) else emit rt s l b msg fields)
  unfolding emit entry_of
  emit-add_stack s l msg fields true true c h k = rw h refl
  emit-add_stack s l msg fields false false c h k = rw h refl
  emit-add_stack s l msg fields true false c h k =
      rw h (deliver-add_stack s.pt (entry_of rt s l false msg) fields)
  emit-add_stack s l msg fields false true c h k = absurd (false_ne_true (k refl))

  guards :
      (l : ZapLevel) (s : Scope)
      → let a = leb (rank (stack_guard l)) (rank s.stack_trace_level) in
        let b = leb (rank (level_of l)) (rank s.stack_trace_level) in
        (between l s ≡ (a && not b)) × (b ≡ true → a ≡ true)
  unfolding between
  guards zap_fatal s = ground arith
  guards zap_error s = ground arith
  guards zap_warn s = ground arith
  guards zap_info s = ground arith
  guards zap_debug s = ground arith

  if_empty : (c : Bool) → [] ≡ (if c then map (add_stack rt) [] else [])
  if_empty true = refl
  if_empty false = refl

  -- If no write fails, a call on a scope writes what the function of the package writes, except
  -- that it adds the stack if the stack trace level is error or above and below the level of the
  -- call.
  pub scope_log-default_log :
      (l : ZapLevel) (s : Scope) (call : LogCall)
      → scope_log rt l s call ≡ (
          if between l s
          then map (add_stack rt) (default_log rt l s call)
          else default_log rt l s call)
  unfolding scope_log default_log
  scope_log-default_log l s call =
      let (h, k) = guards l s in
      elim (Bool-cases (leb (rank (level_of l)) (rank s.output_level))) [
        | inl e ↦ rw e (emit-add_stack s l (message_of rt call) (fields_of call) _ _ _ h k)
        | inr e ↦ rw e (if_empty (between l s))
      ]
