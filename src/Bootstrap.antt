-- ===== src/Bootstrap.antt =====
-- internal/bootstrap: the services of the sidecar, the loop of entry.go that waits for a signal or
-- an error, and the shutdown (agent.go, entry.go, and the `Run` of each service). A run is a
-- sequence of steps of the main goroutine and of the services, in any order.
pub mod Init
pub mod Built
pub mod Made
pub mod Sends
pub mod Invariant
pub mod Shutdown
pub mod Kinds
pub mod Graceful
use polaris_sidecar.Prelude.{
  Bool, List, Option, [], false, if◌then◌else◌, ltb, none, not, some, suc, true, zero, ℕ, ◌++◌, ◌+◌,
  ◌-◌, ◌==◌, ◌∷◌, ◌≡◌,
}

pub data Service : Type 0 where
  debug_service dns_service mtls_service metrics_service rls_service : Service

-- `Agent`: which services are not nil.
pub record Agent : Type 0 where
  pub debug_server : Bool
  pub dns_resolver : Bool
  pub mtls_agent : Bool
  pub metric_server : Bool
  pub rls_svr : Bool

abbrev pub one_if : Bool → Service → List Service
one_if b k = if b then k ∷ [] else []

-- `runServices`: a goroutine for each of these, in this order.
unfoldable pub run_services : Agent → List Service
run_services p =
    one_if p.debug_server debug_service
    ++ one_if p.dns_resolver dns_service
    ++ one_if p.mtls_agent mtls_service
    ++ one_if p.metric_server metrics_service
    ++ one_if p.rls_svr rls_service

abbrev pub count_if : Bool → ℕ → ℕ
count_if b n = if b then n else 0

-- The capacity of the channel that `getErrorChannel` makes.
unfoldable pub error_capacity : Agent → ℕ
error_capacity p =
    count_if p.debug_server 1
    + count_if p.dns_resolver 2
    + count_if p.mtls_agent 1
    + count_if p.metric_server 1
    + count_if p.rls_svr 1

-- Where the `Run` of a service is: before `wg.Add`, before it serves, waiting for the end, in its
-- deferred function before and after the first of its two calls, and returned.
pub data RunPc : Type 0 where
  spawned starting serving stopping closing finished : RunPc

-- A service, where it is, and how many goroutines of its servers have not returned.
pub data Worker : Type 0 where
  worker : Service → RunPc → ℕ → Worker

-- The context is cancelled, the counter of the wait group, and the errors in the channel.
pub data Shared : Type 0 where
  shared : Bool → ℕ → ℕ → Shared

-- A service goes on to its next place, cannot start and reports it, or one of its servers returns.
pub data RunAction : Type 0 where
  run_advances run_fails server_returns : RunAction

-- How many goroutines serve: DNS over UDP and over TCP, and none of the metrics.
abbrev pub servers_of : Service → ℕ
servers_of debug_service = 1
servers_of dns_service = 2
servers_of mtls_service = 1
servers_of metrics_service = 0
servers_of rls_service = 1

-- `wg.Done` comes before `Destroy` in the debug server, and behind it in the others.
abbrev pub done_first : Service → Bool
done_first debug_service = true
done_first _ = false

-- The rotator returns an error when the context is cancelled, and the agent sends it.
abbrev pub reports_end : Service → Bool
reports_end mtls_service = true
reports_end _ = false

-- The DNS server sends no error of its own.
abbrev pub can_fail : Service → Bool
can_fail dns_service = false
can_fail _ = true

module _ (capacity : ℕ) where
  -- A send on the error channel, which cannot be made while the channel is full.
  unfoldable pub send : Bool → ℕ → ℕ → Worker → Option (Shared × Worker)
  send c wg n w = if ltb n capacity then some (shared c wg (suc n), w) else none

  unfoldable pub advance : Bool → ℕ → ℕ → Service → RunPc → ℕ → Option (Shared × Worker)
  unfolding send
  advance c wg n k spawned r = some (shared c (suc wg) n, worker k starting r)
  advance c wg n k starting r = some (shared c wg n, worker k serving (servers_of k))
  advance c wg n k serving r =
      if not c
      then none
      else if reports_end k
      then send c wg n (worker k stopping r)
      else some (shared c wg n, worker k stopping r)
  advance c wg n k stopping r =
      some (shared c (if done_first k then wg - 1 else wg) n, worker k closing r)
  advance c wg n k closing r =
      some (shared c (if done_first k then wg else wg - 1) n, worker k finished r)
  advance c wg n k finished r = none

  -- One step of a service; `none` is a step that it cannot make.
  unfoldable pub move : Shared → Worker → RunAction → Option (Shared × Worker)
  unfolding send advance
  move (shared c wg n) (worker k pc r) run_advances = advance c wg n k pc r
  move (shared c wg n) (worker k starting r) run_fails =
      if can_fail k then send c wg n (worker k stopping r) else none
  move (shared c wg n) (worker k pc r) run_fails = none
  move (shared c wg n) (worker k pc zero) server_returns = none
  move (shared c wg n) (worker k pc (suc r)) server_returns = send c wg n (worker k pc r)

  -- A step of the service at a position.
  unfoldable pub move_at : Shared → List Worker → ℕ → RunAction → Option (Shared × List Worker)
  unfolding move
  move_at m [] i a = none
  move_at m (w ∷ ws) zero a = elim (move m w a) [ none ↦ none | some (m', w') ↦ some (m', w' ∷ ws) ]
  move_at m (w ∷ ws) (suc i) a = elim (move_at m ws i a) [
    | none ↦ none
    | some (m', ws') ↦ some (m', w ∷ ws')
  ]

-- The main goroutine: in `runMainLoop`, waiting for the services, and after one of the two ends of
-- that wait.
pub data MainPc : Type 0 where
  looping waiting graceful timed_out : MainPc

pub data RunState : Type 0 where
  run_state : Shared → List Worker → MainPc → RunState

pub data Choice : Type 0 where
  signals receives all_done times_out : Choice
  acts : ℕ → RunAction → Choice

abbrev pub with_main : MainPc → Option (Shared × List Worker) → Option RunState
with_main main none = none
with_main main (some (m, ws)) = some (run_state m ws main)

-- One step of a run, until the process has ended.
unfoldable pub run_step : ℕ → RunState → Choice → Option RunState
unfolding move_at
run_step capacity (run_state (shared c wg n) ws looping) signals =
    some (run_state (shared true wg n) ws waiting)
run_step capacity (run_state (shared c wg (suc n)) ws looping) receives =
    some (run_state (shared true wg n) ws waiting)
run_step capacity (run_state (shared c wg n) ws waiting) all_done =
    if wg == 0 then some (run_state (shared c wg n) ws graceful) else none
run_step capacity (run_state m ws waiting) times_out = some (run_state m ws timed_out)
run_step capacity (run_state m ws looping) (acts i a) =
    with_main looping (move_at capacity m ws i a)
run_step capacity (run_state m ws waiting) (acts i a) =
    with_main waiting (move_at capacity m ws i a)
run_step capacity s choice = none

abbrev pub fresh_workers : List Service → List Worker
fresh_workers [] = []
fresh_workers (k ∷ ks) = worker k spawned 0 ∷ fresh_workers ks

-- `Start` once the services are spawned.
unfoldable pub start_state : Agent → RunState
unfolding run_services
start_state p = run_state (shared false 0 0) (fresh_workers (run_services p)) looping

pub data Reach (p : Agent) : RunState → Type 0 where
  at_start : Reach p (start_state p)
  then_step :
      (s t : RunState) (choice : Choice)
      → Reach p s
      → run_step (error_capacity p) s choice ≡ some t
      → Reach p t
