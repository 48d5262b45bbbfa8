-- ===== src/Bootstrap/Shutdown.antt =====
-- The end of a run of internal/bootstrap: what is over when it is reported, and the sends that may
-- block.
use polaris_sidecar.Bootstrap.{
  Agent, MainPc, Reach, RunAction, RunPc, Service, Worker, advance, all_done, at_start, closing,
  count_if, debug_service, dns_service, error_capacity, finished, fresh_workers, graceful,
  metrics_service, move, mtls_service, rls_service, run_advances, run_fails, run_services,
  run_state, run_step, send, server_returns, serving, shared, signals, spawned, start_state,
  starting, stopping, then_step, worker,
}
use polaris_sidecar.Bootstrap.Invariant.{Reach-Inv}
use polaris_sidecar.Bootstrap.Sends.{active, pending, total}
use polaris_sidecar.Prelude.{
  All, Bool, List, [], ap, arith, false, get_elem?, inl, inr, of_some, refl, some, suc, true, zero,
  ℕ, ◌<◌, ◌∷◌, ◌≡◌, ◌≤◌, ◌⊎◌,
}

-- A service that has not started, has returned, or, if it is the debug server, has left the wait
-- group and may still have to be destroyed.
abbrev pub Over : Worker → Type 0
Over (worker k pc r) = (pc ≡ spawned) ⊎ (pc ≡ finished) ⊎ ((k ≡ debug_service) × (pc ≡ closing))

active-Over : (w : Worker) → active w ≡ 0 → Over w
active-Over (worker k spawned r) h = inl refl
active-Over (worker k starting r) h = absurd (omega (arith, h))
active-Over (worker k serving r) h = absurd (omega (arith, h))
active-Over (worker k stopping r) h = absurd (omega (arith, h))
active-Over (worker debug_service closing r) h = inr (inr (refl, refl))
active-Over (worker dns_service closing r) h = absurd (omega (arith, h))
active-Over (worker mtls_service closing r) h = absurd (omega (arith, h))
active-Over (worker metrics_service closing r) h = absurd (omega (arith, h))
active-Over (worker rls_service closing r) h = absurd (omega (arith, h))
active-Over (worker k finished r) h = inr (inl refl)

total-Over : (ws : List Worker) → total active ws ≡ 0 → All Over ws
total-Over [] h = tt
total-Over (w ∷ ws) h = (active-Over w (omega (arith, h)), total-Over ws (omega (arith, h)))

-- When a graceful end is reported, the context is cancelled, and every service has returned, has
-- not started yet, or is the debug server with only its Destroy left.
pub graceful-Over :
    (p : Agent) (c : Bool) (wg n : ℕ) (ws : List Worker)
    → Reach p (run_state (shared c wg n) ws graceful)
    → (c ≡ true) × All Over ws
graceful-Over p c wg n ws reach =
    let (u, v, (x, z)) = Reach-Inv p _ reach in (x, total-Over ws (omega (arith, v, z)))

-- A channel with room for one error more is as good as any other that has room.
send-Room :
    (capacity : ℕ) (c : Bool) (wg n : ℕ) (w : Worker)
    → n < capacity
    → send (suc n) c wg n w ≡ send capacity c wg n w
unfolding send
send-Room capacity c wg n w h = ground arith

advance-Room :
    (capacity : ℕ) (c : Bool) (wg n : ℕ) (k : Service) (pc : RunPc) (r : ℕ)
    → (1 ≤ pending (worker k pc r) → n < capacity)
    → advance (suc n) c wg n k pc r ≡ advance capacity c wg n k pc r
unfolding advance
advance-Room capacity c wg n k spawned r h = refl
advance-Room capacity c wg n k starting r h = refl
advance-Room capacity false wg n k serving r h = refl
advance-Room capacity true wg n mtls_service serving r h =
    send-Room capacity true wg n (worker mtls_service stopping r) (h (omega arith))
advance-Room capacity true wg n debug_service serving r h = refl
advance-Room capacity true wg n dns_service serving r h = refl
advance-Room capacity true wg n metrics_service serving r h = refl
advance-Room capacity true wg n rls_service serving r h = refl
advance-Room capacity c wg n k stopping r h = refl
advance-Room capacity c wg n k closing r h = refl
advance-Room capacity c wg n k finished r h = refl

fails-Room :
    (capacity : ℕ) (c : Bool) (wg n : ℕ) (k : Service) (r : ℕ)
    → (1 ≤ pending (worker k starting r) → n < capacity)
    → move (suc n) (shared c wg n) (worker k starting r) run_fails
      ≡ move capacity (shared c wg n) (worker k starting r) run_fails
unfolding move
fails-Room capacity c wg n dns_service r h = refl
fails-Room capacity c wg n k r h = send-Room capacity c wg n (worker k stopping r) (h (omega arith))

move-Room :
    (capacity : ℕ) (c : Bool) (wg n : ℕ) (w : Worker) (a : RunAction)
    → (1 ≤ pending w → n < capacity)
    → move (suc n) (shared c wg n) w a ≡ move capacity (shared c wg n) w a
unfolding move
move-Room capacity c wg n (worker k pc r) run_advances h = advance-Room capacity c wg n k pc r h
move-Room capacity c wg n (worker k starting r) run_fails h = fails-Room capacity c wg n k r h
move-Room capacity c wg n (worker k spawned r) run_fails h = refl
move-Room capacity c wg n (worker k serving r) run_fails h = refl
move-Room capacity c wg n (worker k stopping r) run_fails h = refl
move-Room capacity c wg n (worker k closing r) run_fails h = refl
move-Room capacity c wg n (worker k finished r) run_fails h = refl
move-Room capacity c wg n (worker k pc zero) server_returns h = refl
move-Room capacity c wg n (worker k pc (suc r)) server_returns h =
    send-Room capacity c wg n (worker k pc r) (h (omega arith))

total-get_elem? :
    (f : Worker → ℕ) (ws : List Worker) (i : ℕ) (w : Worker)
    → get_elem? ws i ≡ some w
    → f w ≤ total f ws
total-get_elem? f [] i w h = cc
total-get_elem? f (v ∷ ws) zero w h = omega (arith, ap f (of_some v w h))
total-get_elem? f (v ∷ ws) (suc i) w h = omega (arith, total-get_elem? f ws i w h)

-- Without the mutual TLS agent no send on the error channel ever blocks: in every state of a run, a
-- service can make each step that it could make if the channel had room for one error more.
pub move-Reach :
    (p : Agent) (c : Bool) (wg n : ℕ) (ws : List Worker) (main : MainPc)
    → p.mtls_agent ≡ false
    → Reach p (run_state (shared c wg n) ws main)
    → (i : ℕ) (w : Worker) → get_elem? ws i ≡ some w
    → (a : RunAction)
    → move (suc n) (shared c wg n) w a ≡ move (error_capacity p) (shared c wg n) w a
move-Reach p c wg n ws main off reach i w g a =
    let (u, v, x) = Reach-Inv p _ reach in
    move-Room (error_capacity p) c wg n w a
      (λ h. omega (arith, u, h, total-get_elem? pending ws i w g, ap (λ b. count_if b 1) off))

-- Whatever is configured, a signal may end the process before any service has started: the wait
-- group is still zero, so a graceful end is reported.
pub signal-graceful :
    (p : Agent) → Reach p (run_state (shared true 0 0) (fresh_workers (run_services p)) graceful)
unfolding run_step start_state
signal-graceful p = then_step _ _ all_done (then_step _ _ signals at_start refl) refl
