-- ===== src/Tests/Runs.antt =====
-- Runs of internal/bootstrap: the start of the sidecar, and the end of its services.
use polaris_sidecar.Bootstrap.{
  Agent, Choice, Reach, RunState, Worker, acts, advance, all_done, at_start, dns_service,
  error_capacity, finished, fresh_workers, graceful, looping, move, move_at, mtls_service, receives,
  rls_service, run_advances, run_fails, run_services, run_state, run_step, send, server_returns,
  serving, shared, signals, start_state, then_step, waiting, worker,
}
use polaris_sidecar.Bootstrap.Graceful.{IsFinished, Leads, Reach-graceful}
use polaris_sidecar.Bootstrap.Shutdown.{Over, graceful-Over, move-Reach, signal-graceful}
use polaris_sidecar.Prelude.{All, List, Option, [], false, inl, none, refl, some, true, ℕ, ◌∷◌, ◌≡◌}

-- Only the DNS server and the rate limit server.
abbrev two_services : Agent
two_services = record {
  debug_server = false;
  dns_resolver = true;
  mtls_agent = false;
  metric_server = false;
  rls_svr = true;
}

-- The steps of a run, as far as they can be made.
follow : ℕ → RunState → List Choice → RunState
unfolding run_step
follow capacity s [] = s
follow capacity s (c ∷ cs) = elim (run_step capacity s c) [
  | none ↦ s
  | some t ↦ follow capacity t cs
]

take_step :
    (p : Agent) (s : RunState) (c : Choice) (cs : List Choice) (o : Option RunState)
    → run_step (error_capacity p) s c ≡ o
    → Reach p s
    → ((t : RunState) → Reach p t → Reach p (follow (error_capacity p) t cs))
    → Reach p (elim o [ none ↦ s | some t ↦ follow (error_capacity p) t cs ])
take_step p s c cs none e reach f = reach
take_step p s c cs (some t) e reach f = f t (then_step s t c reach e)

follow-Reach :
    (p : Agent) (cs : List Choice) (s : RunState)
    → Reach p s
    → Reach p (follow (error_capacity p) s cs)
unfolding follow
follow-Reach p [] s reach = reach
follow-Reach p (c ∷ cs) s reach =
    take_step p s c cs (run_step (error_capacity p) s c) refl reach (follow-Reach p cs)

-- The services start, one of the DNS servers returns with an error, and all end.
abbrev a_run : List Choice
a_run =
    acts 0 run_advances
    ∷ acts 1 run_advances
    ∷ acts 0 run_advances
    ∷ acts 1 run_fails
    ∷ acts 0 server_returns
    ∷ receives
    ∷ acts 0 run_advances
    ∷ acts 1 run_advances
    ∷ acts 1 run_advances
    ∷ acts 0 run_advances
    ∷ acts 0 run_advances
    ∷ all_done
    ∷ []

abbrev end_workers : List Worker
end_workers = worker dns_service finished 1 ∷ worker rls_service finished 0 ∷ []

run_ends : Reach two_services (run_state (shared true 0 1) end_workers graceful)
unfolding follow run_step move_at move advance send start_state run_services error_capacity
run_ends = follow-Reach two_services a_run (start_state two_services) at_start

graceful-Over_example : (true ≡ true) × All Over end_workers
graceful-Over_example = graceful-Over two_services true 0 1 end_workers run_ends

move-Reach_example :
    move 2 (shared true 0 1) (worker dns_service finished 1) server_returns
    ≡ move
        (error_capacity two_services)
        (shared true 0 1)
        (worker dns_service finished 1)
        server_returns
move-Reach_example =
    move-Reach two_services true 0 1 end_workers graceful refl run_ends 0
      (worker dns_service finished 1) refl server_returns

signal-graceful_example :
    Reach two_services
      (run_state (shared true 0 0) (fresh_workers (run_services two_services)) graceful)
signal-graceful_example = signal-graceful two_services

Reach-graceful_example :
    (ws : List Worker) × Leads two_services
      (run_state (shared false 0 0) (fresh_workers (run_services two_services)) looping)
      (run_state (shared true 0 0) ws graceful)
    × All IsFinished ws
unfolding start_state
Reach-graceful_example =
    Reach-graceful two_services false 0 0 (fresh_workers (run_services two_services)) looping refl
      (inl refl) at_start

-- With the agent of mutual TLS alone, whose server fails just before a signal: the agent cannot
-- send the error of its rotator, and so does not leave the wait group.
abbrev only_mtls : Agent
only_mtls = record {
  debug_server = false;
  dns_resolver = false;
  mtls_agent = true;
  metric_server = false;
  rls_svr = false;
}

abbrev stuck_run : List Choice
stuck_run = acts 0 run_advances ∷ acts 0 run_advances ∷ acts 0 server_returns ∷ signals ∷ []

mtls_stuck :
    Reach only_mtls (run_state (shared true 1 1) (worker mtls_service serving 0 ∷ []) waiting)
unfolding follow run_step move_at move advance send start_state run_services error_capacity
mtls_stuck = follow-Reach only_mtls stuck_run (start_state only_mtls) at_start

mtls_blocked :
    move (error_capacity only_mtls) (shared true 1 1) (worker mtls_service serving 0) run_advances
    ≡ none
unfolding move advance send error_capacity
mtls_blocked = refl
