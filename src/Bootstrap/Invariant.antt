-- ===== src/Bootstrap/Invariant.antt =====
-- What holds in every state of a run of internal/bootstrap.
use polaris_sidecar.Bootstrap.{
  Agent, Choice, MainPc, Reach, RunState, Service, Shared, Worker, acts, all_done, at_start,
  count_if, debug_service, dns_service, error_capacity, fresh_workers, graceful, looping,
  metrics_service, move_at, mtls_service, one_if, receives, rls_service, run_services, run_state,
  run_step, shared, signals, spawned, start_state, then_step, timed_out, times_out, waiting,
  with_main, worker,
}
use polaris_sidecar.Bootstrap.Sends.{KeepsAll, active, move_at-KeepsAll, pending, total}
use polaris_sidecar.Prelude.{
  Bool, List, Option, [], arith, false, if◌then◌else◌, none, of_some, refl, some, subst, suc, sym,
  true, zero, ℕ, ◌++◌, ◌+◌, ◌==◌, ◌∷◌, ◌≡◌, ◌≢◌, ◌≤◌,
}

-- The mutual TLS agent may send two errors, for which the channel has one place.
abbrev pub slack : Agent → ℕ
slack p = count_if p.mtls_agent 1

-- The main goroutine has left its loop only with the context cancelled, and reports a graceful end
-- only with a wait group of zero.
abbrev pub MainInv : Bool → ℕ → MainPc → Type 0
MainInv c wg looping = Unit
MainInv c wg waiting = c ≡ true
MainInv c wg graceful = (c ≡ true) × (wg ≡ 0)
MainInv c wg timed_out = c ≡ true

abbrev pub Inv : Agent → RunState → Type 0
Inv p (run_state (shared c wg n) ws main) =
    (n + total pending ws ≤ error_capacity p + slack p) × (wg ≡ total active ws) × MainInv c wg main

total-fresh_append :
    (f : Worker → ℕ) (ks js : List Service)
    → total f (fresh_workers (ks ++ js)) ≡ total f (fresh_workers ks) + total f (fresh_workers js)
total-fresh_append f [] js = omega arith
total-fresh_append f (k ∷ ks) js = omega (arith, total-fresh_append f ks js)

total-one_if :
    (f : Worker → ℕ) (b : Bool) (k : Service)
    → total f (fresh_workers (one_if b k)) ≡ count_if b (f (worker k spawned 0))
total-one_if f true k = omega arith
total-one_if f false k = refl

total-start :
    (f : Worker → ℕ) (p : Agent)
    → total f (fresh_workers (run_services p))
      ≡ count_if p.debug_server (f (worker debug_service spawned 0))
        + count_if p.dns_resolver (f (worker dns_service spawned 0))
        + count_if p.mtls_agent (f (worker mtls_service spawned 0))
        + count_if p.metric_server (f (worker metrics_service spawned 0))
        + count_if p.rls_svr (f (worker rls_service spawned 0))
unfolding run_services
total-start f p =
    let a = one_if p.debug_server debug_service in
    let b = one_if p.dns_resolver dns_service in
    let c = one_if p.mtls_agent mtls_service in
    let d = one_if p.metric_server metrics_service in
    let e = one_if p.rls_svr rls_service in
    omega (
      arith,
      total-fresh_append f (a ++ b ++ c ++ d) e,
      total-fresh_append f (a ++ b ++ c) d,
      total-fresh_append f (a ++ b) c,
      total-fresh_append f a b,
      total-one_if f p.debug_server debug_service,
      total-one_if f p.dns_resolver dns_service,
      total-one_if f p.mtls_agent mtls_service,
      total-one_if f p.metric_server metrics_service,
      total-one_if f p.rls_svr rls_service,
    )

count_two : (b : Bool) → count_if b 2 ≡ count_if b 1 + count_if b 1
count_two true = refl
count_two false = refl

count_zero : (b : Bool) → count_if b 0 ≡ 0
count_zero true = refl
count_zero false = refl

start-Inv : (p : Agent) → Inv p (start_state p)
unfolding start_state error_capacity
start-Inv p = (
  omega (arith, total-start pending p, count_two p.mtls_agent),
  omega (
    arith,
    total-start active p,
    count_zero p.debug_server,
    count_zero p.dns_resolver,
    count_zero p.mtls_agent,
    count_zero p.metric_server,
    count_zero p.rls_svr,
  ),
  tt,
)

pub no_step : (t : RunState) → none ≢ some t
no_step t h = cc

-- A step of a service keeps the invariant.
acts-Inv :
    (p : Agent) (c : Bool) (wg n : ℕ) (ws : List Worker) (main : MainPc)
    → Inv p (run_state (shared c wg n) ws main)
    → ((wg' : ℕ) → MainInv c wg' main)
    → (o : Option (Shared × List Worker)) → KeepsAll (shared c wg n) ws o
    → (t : RunState) → with_main main o ≡ some t
    → Inv p t
acts-Inv p c wg n ws main v f none k t h = absurd (no_step t h)
acts-Inv p c wg n ws main (u, v, x) f (some (shared c' wg' n', ws')) (d, e, g) t h =
    subst (Inv p) (of_some (run_state (shared c' wg' n') ws' main) t h)
      (omega (arith, u, d), omega (arith, v, e), subst (λ b. MainInv b wg' main) (sym g) (f wg'))

ended-Inv :
    (p : Agent) (c : Bool) (wg n : ℕ) (ws : List Worker)
    → Inv p (run_state (shared c wg n) ws waiting)
    → (b : Bool) → (b ≡ true → wg ≡ 0)
    → (t : RunState) → (if b then some (run_state (shared c wg n) ws graceful) else none) ≡ some t
    → Inv p t
ended-Inv p c wg n ws (u, v, x) true z t h =
    subst (Inv p) (of_some (run_state (shared c wg n) ws graceful) t h) (u, v, (x, z refl))
ended-Inv p c wg n ws v false z t h = absurd (no_step t h)

step-Inv :
    (p : Agent) (s : RunState) (choice : Choice) (t : RunState)
    → Inv p s
    → run_step (error_capacity p) s choice ≡ some t
    → Inv p t
unfolding run_step
step-Inv p (run_state (shared c wg n) ws looping) signals t (u, v, x) h =
    subst (Inv p) (of_some (run_state (shared true wg n) ws waiting) t h) (u, v, refl)
step-Inv p (run_state (shared c wg zero) ws looping) receives t v h = absurd (no_step t h)
step-Inv p (run_state (shared c wg (suc n)) ws looping) receives t (u, v, x) h =
    subst (Inv p) (of_some (run_state (shared true wg n) ws waiting) t h)
      (omega (arith, u), v, refl)
step-Inv p (run_state (shared c wg n) ws looping) all_done t v h = absurd (no_step t h)
step-Inv p (run_state (shared c wg n) ws looping) times_out t v h = absurd (no_step t h)
step-Inv p (run_state (shared c wg n) ws looping) (acts i a) t (u, v, x) h =
    acts-Inv p c wg n ws looping (u, v, x) (λ wg'. tt)
      (move_at (error_capacity p) (shared c wg n) ws i a)
      (move_at-KeepsAll (error_capacity p) (shared c wg n) ws i a (omega (arith, v))) t h
step-Inv p (run_state (shared c wg n) ws waiting) signals t v h = absurd (no_step t h)
step-Inv p (run_state (shared c wg n) ws waiting) receives t v h = absurd (no_step t h)
step-Inv p (run_state (shared c wg n) ws waiting) all_done t v h =
    ended-Inv p c wg n ws v (wg == 0) (λ e. ground arith) t h
step-Inv p (run_state (shared c wg n) ws waiting) times_out t (u, v, x) h =
    subst (Inv p) (of_some (run_state (shared c wg n) ws timed_out) t h) (u, v, x)
step-Inv p (run_state (shared c wg n) ws waiting) (acts i a) t (u, v, x) h =
    acts-Inv p c wg n ws waiting (u, v, x) (λ wg'. x)
      (move_at (error_capacity p) (shared c wg n) ws i a)
      (move_at-KeepsAll (error_capacity p) (shared c wg n) ws i a (omega (arith, v))) t h
step-Inv p (run_state (shared c wg n) ws graceful) choice t v h = absurd (no_step t h)
step-Inv p (run_state (shared c wg n) ws timed_out) choice t v h = absurd (no_step t h)

pub Reach-Inv : (p : Agent) (s : RunState) → Reach p s → Inv p s
Reach-Inv p s at_start = start-Inv p
Reach-Inv p s (then_step r t choice reach h) = step-Inv p r choice s (Reach-Inv p r reach) h
