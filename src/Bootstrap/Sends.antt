-- ===== src/Bootstrap/Sends.antt =====
-- The wait group and the error channel of internal/bootstrap over every run.
use polaris_sidecar.Bootstrap.{
  RunAction, RunPc, Service, Shared, Worker, advance, can_fail, closing, debug_service, dns_service,
  done_first, finished, metrics_service, move, move_at, mtls_service, reports_end, rls_service,
  run_advances, run_fails, send, server_returns, servers_of, serving, shared, spawned, starting,
  stopping, worker,
}
use polaris_sidecar.Prelude.{
  Bool, Bool-cases, List, Option, [], arith, false, if◌then◌else◌, inl, inr, ltb, none, refl, some,
  subst, suc, true, zero, ℕ, ◌+◌, ◌∷◌, ◌≡◌, ◌≤◌,
}

-- What a service still holds of the wait group.
abbrev pub active_at : Service → RunPc → ℕ
active_at k spawned = 0
active_at k starting = 1
active_at k serving = 1
active_at k stopping = 1
active_at k closing = if done_first k then 0 else 1
active_at k finished = 0

abbrev pub active : Worker → ℕ
active (worker k pc r) = active_at k pc

-- The most errors that a service sends.
abbrev pub sends_of : Service → ℕ
sends_of debug_service = 1
sends_of dns_service = 2
sends_of mtls_service = 2
sends_of metrics_service = 1
sends_of rls_service = 1

abbrev pub to_send : Service → RunPc → ℕ
to_send k spawned = sends_of k
to_send k starting = sends_of k
to_send k serving = if reports_end k then 1 else 0
to_send k _ = 0

abbrev pub pending : Worker → ℕ
pending (worker k pc r) = r + to_send k pc

abbrev pub total : (Worker → ℕ) → List Worker → ℕ
total f [] = 0
total f (w ∷ ws) = f w + total f ws

abbrev pub wg_of : Shared → ℕ
wg_of (shared c wg n) = wg

abbrev pub Keeps : Shared → ℕ → ℕ → Shared → ℕ → ℕ → Type 0
Keeps (shared c wg n) a p (shared c' wg' n') a' p' =
    (n' + p' ≤ n + p) × (wg' + a ≡ wg + a') × (c' ≡ c)

abbrev pub KeepsOne : Shared → Worker → Option (Shared × Worker) → Type 0
KeepsOne m w none = Unit
KeepsOne m w (some (m', w')) = Keeps m (active w) (pending w) m' (active w') (pending w')

abbrev pub KeepsAll : Shared → List Worker → Option (Shared × List Worker) → Type 0
KeepsAll m ws none = Unit
KeepsAll m ws (some (m', ws')) =
    Keeps m (total active ws) (total pending ws) m' (total active ws') (total pending ws')

first :
    (m : Shared) (w : Worker) (ws : List Worker) (o : Option (Shared × Worker))
    → KeepsOne m w o
    → KeepsAll m (w ∷ ws) (elim o [ none ↦ none | some (m', w') ↦ some (m', w' ∷ ws) ])
first m w ws none h = tt
first (shared c wg n) w ws (some (shared c' wg' n', w')) (a, b, e) =
    (omega (arith, a), omega (arith, b), e)

behind :
    (m : Shared) (w : Worker) (ws : List Worker) (o : Option (Shared × List Worker))
    → KeepsAll m ws o
    → KeepsAll m (w ∷ ws) (elim o [ none ↦ none | some (m', ws') ↦ some (m', w ∷ ws') ])
behind m w ws none h = tt
behind (shared c wg n) w ws (some (shared c' wg' n', ws')) (a, b, e) =
    (omega (arith, a), omega (arith, b), e)

module _ (capacity : ℕ) where
  send-KeepsOne :
      (c : Bool) (wg n : ℕ) (w w' : Worker)
      → suc (pending w') ≤ pending w
      → active w ≡ active w'
      → KeepsOne (shared c wg n) w (send capacity c wg n w')
  unfolding send
  send-KeepsOne c wg n w w' h e = elim (Bool-cases (ltb n capacity)) [
    | inl l ↦ rw l (omega arith, omega arith, refl)
    | inr l ↦ rw l tt
  ]

  -- The servers that start account for what was reserved.
  servers-sends_of : (k : Service) → servers_of k + to_send k serving ≤ sends_of k
  servers-sends_of debug_service = omega arith
  servers-sends_of dns_service = omega arith
  servers-sends_of mtls_service = omega arith
  servers-sends_of metrics_service = omega arith
  servers-sends_of rls_service = omega arith

  advance-KeepsOne :
      (c : Bool) (wg n : ℕ) (k : Service) (pc : RunPc) (r : ℕ)
      → active_at k pc ≤ wg
      → KeepsOne (shared c wg n) (worker k pc r) (advance capacity c wg n k pc r)
  unfolding advance
  advance-KeepsOne c wg n k spawned r h = (omega arith, omega arith, refl)
  advance-KeepsOne c wg n k starting r h = (omega (arith, servers-sends_of k), omega arith, refl)
  advance-KeepsOne false wg n k serving r h = tt
  advance-KeepsOne true wg n k serving r h = elim (Bool-cases (reports_end k)) [
    | inl e ↦ rw e (
        send-KeepsOne true wg n (worker k serving r) (worker k stopping r) (rw e (omega arith))
          refl)
    | inr e ↦ rw e (omega arith, omega arith, refl)
  ]
  advance-KeepsOne c wg n k stopping r h = elim (Bool-cases (done_first k)) [
    | inl e ↦ rw e (omega arith, omega arith, refl)
    | inr e ↦ rw e (omega arith, omega arith, refl)
  ]
  advance-KeepsOne c wg n k closing r h = elim (Bool-cases (done_first k)) [
    | inl e ↦ rw e (omega arith, omega arith, refl)
    | inr e ↦ rw e (omega arith, omega (arith, subst (λ b. (if b then 0 else 1) ≤ wg) e h), refl)
  ]
  advance-KeepsOne c wg n k finished r h = tt

  -- A failure is reported by one of the sends that were reserved.
  fails-KeepsOne :
      (c : Bool) (wg n : ℕ) (k : Service) (r : ℕ)
      → KeepsOne
          (shared c wg n)
          (worker k starting r)
          (if can_fail k then send capacity c wg n (worker k stopping r) else none)
  unfolding send
  fails-KeepsOne c wg n dns_service r = tt
  fails-KeepsOne c wg n k r =
      send-KeepsOne c wg n (worker k starting r) (worker k stopping r) (omega arith) refl

  move-KeepsOne :
      (m : Shared) (w : Worker) (a : RunAction)
      → active w ≤ wg_of m
      → KeepsOne m w (move capacity m w a)
  unfolding move
  move-KeepsOne (shared c wg n) (worker k pc r) run_advances h = advance-KeepsOne c wg n k pc r h
  move-KeepsOne (shared c wg n) (worker k starting r) run_fails h = fails-KeepsOne c wg n k r
  move-KeepsOne (shared c wg n) (worker k spawned r) run_fails h = tt
  move-KeepsOne (shared c wg n) (worker k serving r) run_fails h = tt
  move-KeepsOne (shared c wg n) (worker k stopping r) run_fails h = tt
  move-KeepsOne (shared c wg n) (worker k closing r) run_fails h = tt
  move-KeepsOne (shared c wg n) (worker k finished r) run_fails h = tt
  move-KeepsOne (shared c wg n) (worker k pc zero) server_returns h = tt
  move-KeepsOne (shared c wg n) (worker k pc (suc r)) server_returns h =
      send-KeepsOne c wg n (worker k pc (suc r)) (worker k pc r) (omega arith) refl

  pub move_at-KeepsAll :
      (m : Shared) (ws : List Worker) (i : ℕ) (a : RunAction)
      → total active ws ≤ wg_of m
      → KeepsAll m ws (move_at capacity m ws i a)
  unfolding move_at
  move_at-KeepsAll m [] i a h = tt
  move_at-KeepsAll m (w ∷ ws) zero a h =
      first m w ws (move capacity m w a) (move-KeepsOne m w a (omega (arith, h)))
  move_at-KeepsAll m (w ∷ ws) (suc i) a h =
      behind m w ws (move_at capacity m ws i a) (move_at-KeepsAll m ws i a (omega (arith, h)))
