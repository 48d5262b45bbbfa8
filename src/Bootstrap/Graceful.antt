-- ===== src/Bootstrap/Graceful.antt =====
-- A graceful end of internal/bootstrap stays within reach.
use polaris_sidecar.Bootstrap.{
  Agent, Choice, MainPc, Reach, RunAction, RunPc, RunState, Service, Shared, Worker, acts, advance,
  all_done, closing, debug_service, dns_service, error_capacity, finished, graceful, looping,
  metrics_service, move, move_at, mtls_service, one_if, reports_end, rls_service, run_advances,
  run_services, run_state, run_step, servers_of, serving, shared, signals, spawned, starting,
  stopping, then_step, timed_out, waiting, with_main, worker,
}
use polaris_sidecar.Bootstrap.Invariant.{Reach-Inv}
use polaris_sidecar.Bootstrap.Kinds.{Reach-services_of, services_of}
use polaris_sidecar.Bootstrap.Sends.{active, active_at, total}
use polaris_sidecar.Prelude.{
  All, All-append, Bool, List, [], ap, append_assoc, arith, false, inl, inr, length, refl, some,
  subst, suc, sym, true, ℕ, ◌++◌, ◌∙◌, ◌∷◌, ◌≡◌, ◌⊎◌,
}

-- Some steps lead from one state of a run to another.
pub data Leads (p : Agent) (s : RunState) : RunState → Type 0 where
  stays : Leads p s s
  goes_on :
      (r t : RunState) (choice : Choice)
      → Leads p s r
      → run_step (error_capacity p) r choice ≡ some t
      → Leads p s t

Reach-Leads : (p : Agent) (s t : RunState) → Reach p s → Leads p s t → Reach p t
Reach-Leads p s t reach stays = reach
Reach-Leads p s t reach (goes_on r x choice way h) =
    then_step r t choice (Reach-Leads p s r reach way) h

move_at-append :
    (capacity : ℕ) (m m' : Shared) (ds ws : List Worker) (w w' : Worker) (a : RunAction)
    → move capacity m w a ≡ some (m', w')
    → move_at capacity m (ds ++ w ∷ ws) (length ds) a ≡ some (m', ds ++ w' ∷ ws)
unfolding move_at
move_at-append capacity m m' [] ws w w' a h = rw (h, move_at) refl
move_at-append capacity m m' (d ∷ ds) ws w w' a h =
    rw (move_at-append capacity m m' ds ws w w' a h, move_at) refl

module _ (p : Agent) (s : RunState) (ds ws : List Worker) (k : Service) where
  abbrev state : ℕ → ℕ → RunPc → ℕ → RunState
  state wg n pc r = run_state (shared true wg n) (ds ++ worker k pc r ∷ ws) waiting

  steps :
      (wg wg' n : ℕ) (pc pc' : RunPc) (r r' : ℕ)
      → advance (error_capacity p) true wg n k pc r ≡ some (shared true wg' n, worker k pc' r')
      → Leads p s (state wg n pc r)
      → Leads p s (state wg' n pc' r')
  unfolding run_step move
  steps wg wg' n pc pc' r r' h way = goes_on _ _ (acts (length ds) run_advances) way (
      ap (with_main waiting) (
        move_at-append (error_capacity p) (shared true wg n) (shared true wg' n) ds ws
          (worker k pc r) (worker k pc' r') run_advances h))

  -- The service has returned, and no error was sent meanwhile.
  abbrev Returned : ℕ → Type 0
  Returned n = (wg : ℕ) × (r : ℕ) × Leads p s (state wg n finished r)

  from_closing : (wg n r : ℕ) → Leads p s (state wg n closing r) → Returned n
  unfolding advance
  from_closing wg n r way = (_, r, steps wg _ n closing finished r r refl way)

  from_stopping : (wg n r : ℕ) → Leads p s (state wg n stopping r) → Returned n
  unfolding advance
  from_stopping wg n r way = from_closing _ n r (steps wg _ n stopping closing r r refl way)

  from_serving :
      (wg n r : ℕ) → reports_end k ≡ false → Leads p s (state wg n serving r) → Returned n
  unfolding advance
  from_serving wg n r off way =
      from_stopping wg n r (steps wg wg n serving stopping r r (rw off refl) way)

  from_starting :
      (wg n r : ℕ) → reports_end k ≡ false → Leads p s (state wg n starting r) → Returned n
  unfolding advance
  from_starting wg n r off way =
      from_serving wg n (servers_of k) off
        (steps wg wg n starting serving r (servers_of k) refl way)

  returns :
      (wg n : ℕ) (pc : RunPc) (r : ℕ)
      → reports_end k ≡ false
      → Leads p s (state wg n pc r)
      → Returned n
  unfolding advance
  returns wg n spawned r off way =
      from_starting (suc wg) n r off (steps wg (suc wg) n spawned starting r r refl way)
  returns wg n starting r off way = from_starting wg n r off way
  returns wg n serving r off way = from_serving wg n r off way
  returns wg n stopping r off way = from_stopping wg n r way
  returns wg n closing r off way = from_closing wg n r way
  returns wg n finished r off way = (wg, r, way)

abbrev pub IsFinished : Worker → Type 0
IsFinished (worker k pc r) = pc ≡ finished

abbrev NoReport : Service → Type 0
NoReport k = reports_end k ≡ false

run_through :
    (p : Agent) (s : RunState) (ds ws : List Worker) (wg n : ℕ)
    → All NoReport (services_of ws)
    → All IsFinished ds
    → Leads p s (run_state (shared true wg n) (ds ++ ws) waiting)
    → (wg' : ℕ) × (ws' : List Worker) × Leads p s (run_state (shared true wg' n) ws' waiting)
      × All IsFinished ws'
run_through p s ds [] wg n off h way = (wg, ds ++ [], way, All-append IsFinished ds [] h tt)
run_through p s ds (worker k pc r ∷ ws) wg n off h way =
    let (wg', r', way') = returns p s ds ws k wg n pc r off.0 way in
    run_through p s (ds ++ worker k finished r' ∷ []) ws wg' n off.1
      (All-append IsFinished ds (worker k finished r' ∷ []) h (refl, tt))
      (subst (λ t. Leads p s (run_state (shared true wg' n) t waiting))
        (sym (append_assoc ds (worker k finished r' ∷ []) ws)) way')

one_if-NoReport : (b : Bool) (k : Service) → (b ≡ true → NoReport k) → All NoReport (one_if b k)
one_if-NoReport true k h = (h refl, tt)
one_if-NoReport false k h = tt

run_services-NoReport : (p : Agent) → p.mtls_agent ≡ false → All NoReport (run_services p)
unfolding run_services
run_services-NoReport p off =
    let a = one_if p.debug_server debug_service in
    let b = one_if p.dns_resolver dns_service in
    let c = one_if p.mtls_agent mtls_service in
    let d = one_if p.metric_server metrics_service in
    let e = one_if p.rls_svr rls_service in
    All-append NoReport (a ++ b ++ c ++ d) e
      (All-append NoReport (a ++ b ++ c) d
        (All-append NoReport (a ++ b) c
          (All-append NoReport a b (one_if-NoReport p.debug_server debug_service (λ h. refl))
            (one_if-NoReport p.dns_resolver dns_service (λ h. refl)))
          (one_if-NoReport p.mtls_agent mtls_service (λ h. cc)))
        (one_if-NoReport p.metric_server metrics_service (λ h. refl)))
      (one_if-NoReport p.rls_svr rls_service (λ h. refl))

finished-active : (ws : List Worker) → All IsFinished ws → total active ws ≡ 0
finished-active [] h = refl
finished-active (worker k pc r ∷ ws) h = omega (arith, ap (active_at k) h.0, finished-active ws h.1)

ends_gracefully :
    (p : Agent) (s : RunState) (ws : List Worker) (wg n : ℕ)
    → p.mtls_agent ≡ false
    → Reach p s
    → Leads p s (run_state (shared true wg n) ws waiting)
    → (ws' : List Worker) × Leads p s (run_state (shared true 0 n) ws' graceful)
      × All IsFinished ws'
unfolding run_step
ends_gracefully p s ws wg n off reach way =
    let ks = Reach-services_of p _ (Reach-Leads p s _ reach way) in
    let (wg', ws', way', h) =
      run_through p s [] ws wg n (subst (All NoReport) (sym ks) (run_services-NoReport p off)) tt
        way in
    let (u, v, x) = Reach-Inv p _ (Reach-Leads p s _ reach way') in
    let zero_left : wg' ≡ 0 = v ∙ finished-active ws' h in
    (
      ws',
      goes_on _ _ all_done
          (subst (λ t. Leads p s (run_state (shared true t n) ws' waiting)) zero_left way') refl,
      h,
    )

-- Without the mutual TLS agent, from every state of a run that has not ended some steps lead to a
-- graceful end with every service returned.
pub Reach-graceful :
    (p : Agent) (c : Bool) (wg n : ℕ) (ws : List Worker) (main : MainPc)
    → p.mtls_agent ≡ false
    → (main ≡ looping) ⊎ (main ≡ waiting)
    → Reach p (run_state (shared c wg n) ws main)
    → (ws' : List Worker) × Leads p
        (run_state (shared c wg n) ws main)
        (run_state (shared true 0 n) ws' graceful)
      × All IsFinished ws'
unfolding run_step
Reach-graceful p c wg n ws looping off e reach =
    ends_gracefully p _ ws wg n off reach (goes_on _ _ signals stays refl)
Reach-graceful p c wg n ws waiting off e reach =
    let (u, v, x) = Reach-Inv p _ reach in
    ends_gracefully p _ ws wg n off reach (
      subst
        (λ b. Leads p (run_state (shared c wg n) ws waiting) (run_state (shared b wg n) ws waiting))
        x stays)
Reach-graceful p c wg n ws graceful off (inl e) reach = cc
Reach-graceful p c wg n ws graceful off (inr e) reach = cc
Reach-graceful p c wg n ws timed_out off (inl e) reach = cc
Reach-graceful p c wg n ws timed_out off (inr e) reach = cc
