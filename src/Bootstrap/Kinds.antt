-- ===== src/Bootstrap/Kinds.antt =====
-- No step of a run of internal/bootstrap changes which services there are.
use polaris_sidecar.Bootstrap.{
  Agent, Choice, MainPc, Reach, RunAction, RunPc, RunState, Service, Shared, Worker, acts, advance,
  all_done, at_start, can_fail, closing, error_capacity, finished, fresh_workers, graceful, looping,
  move, move_at, receives, reports_end, run_advances, run_fails, run_services, run_state, run_step,
  send, server_returns, serving, shared, signals, spawned, start_state, starting, stopping,
  then_step, timed_out, times_out, waiting, with_main, worker,
}
use polaris_sidecar.Bootstrap.Invariant.{no_step}
use polaris_sidecar.Prelude.{
  Bool, Bool-cases, List, Option, [], ap, false, if◌then◌else◌, inl, inr, ltb, none, of_some, refl,
  some, suc, sym, true, zero, ℕ, ◌==◌, ◌∙◌, ◌∷◌, ◌≡◌,
}

abbrev pub service_of : Worker → Service
service_of (worker k pc r) = k

abbrev pub services_of : List Worker → List Service
services_of [] = []
services_of (w ∷ ws) = service_of w ∷ services_of ws

abbrev SameOne : Service → Option (Shared × Worker) → Type 0
SameOne k none = Unit
SameOne k (some (m', w')) = service_of w' ≡ k

abbrev SameAll : List Service → Option (Shared × List Worker) → Type 0
SameAll ks none = Unit
SameAll ks (some (m', ws')) = services_of ws' ≡ ks

send-SameOne :
    (capacity : ℕ) (c : Bool) (wg n : ℕ) (k : Service) (pc : RunPc) (r : ℕ)
    → SameOne k (send capacity c wg n (worker k pc r))
unfolding send
send-SameOne capacity c wg n k pc r = elim (Bool-cases (ltb n capacity)) [
  | inl l ↦ rw l refl
  | inr l ↦ rw l tt
]

advance-SameOne :
    (capacity : ℕ) (c : Bool) (wg n : ℕ) (k : Service) (pc : RunPc) (r : ℕ)
    → SameOne k (advance capacity c wg n k pc r)
unfolding advance
advance-SameOne capacity c wg n k spawned r = refl
advance-SameOne capacity c wg n k starting r = refl
advance-SameOne capacity false wg n k serving r = tt
advance-SameOne capacity true wg n k serving r = elim (Bool-cases (reports_end k)) [
  | inl e ↦ rw e (send-SameOne capacity true wg n k stopping r)
  | inr e ↦ rw e refl
]
advance-SameOne capacity c wg n k stopping r = refl
advance-SameOne capacity c wg n k closing r = refl
advance-SameOne capacity c wg n k finished r = tt

fails-SameOne :
    (capacity : ℕ) (c : Bool) (wg n : ℕ) (k : Service) (r : ℕ) (b : Bool)
    → SameOne k (if b then send capacity c wg n (worker k stopping r) else none)
fails-SameOne capacity c wg n k r true = send-SameOne capacity c wg n k stopping r
fails-SameOne capacity c wg n k r false = tt

move-SameOne :
    (capacity : ℕ) (m : Shared) (w : Worker) (a : RunAction)
    → SameOne (service_of w) (move capacity m w a)
unfolding move
move-SameOne capacity (shared c wg n) (worker k pc r) run_advances =
    advance-SameOne capacity c wg n k pc r
move-SameOne capacity (shared c wg n) (worker k starting r) run_fails =
    fails-SameOne capacity c wg n k r (can_fail k)
move-SameOne capacity (shared c wg n) (worker k spawned r) run_fails = tt
move-SameOne capacity (shared c wg n) (worker k serving r) run_fails = tt
move-SameOne capacity (shared c wg n) (worker k stopping r) run_fails = tt
move-SameOne capacity (shared c wg n) (worker k closing r) run_fails = tt
move-SameOne capacity (shared c wg n) (worker k finished r) run_fails = tt
move-SameOne capacity (shared c wg n) (worker k pc zero) server_returns = tt
move-SameOne capacity (shared c wg n) (worker k pc (suc r)) server_returns =
    send-SameOne capacity c wg n k pc r

same_first :
    (k : Service) (ws : List Worker) (o : Option (Shared × Worker))
    → SameOne k o
    → SameAll (k ∷ services_of ws) (elim o [ none ↦ none | some (m', w') ↦ some (m', w' ∷ ws) ])
same_first k ws none h = tt
same_first k ws (some (m', w')) h = ap (λ j. j ∷ services_of ws) h

same_behind :
    (w : Worker) (ks : List Service) (o : Option (Shared × List Worker))
    → SameAll ks o
    → SameAll (service_of w ∷ ks) (elim o [ none ↦ none | some (m', ws') ↦ some (m', w ∷ ws') ])
same_behind w ks none h = tt
same_behind w ks (some (m', ws')) h = ap (λ js. service_of w ∷ js) h

move_at-SameAll :
    (capacity : ℕ) (m : Shared) (ws : List Worker) (i : ℕ) (a : RunAction)
    → SameAll (services_of ws) (move_at capacity m ws i a)
unfolding move_at
move_at-SameAll capacity m [] i a = tt
move_at-SameAll capacity m (w ∷ ws) zero a =
    same_first (service_of w) ws (move capacity m w a) (move-SameOne capacity m w a)
move_at-SameAll capacity m (w ∷ ws) (suc i) a =
    same_behind w (services_of ws) (move_at capacity m ws i a) (move_at-SameAll capacity m ws i a)

abbrev pub workers_of : RunState → List Worker
workers_of (run_state m ws main) = ws

with_main-Same :
    (ks : List Service) (main : MainPc) (o : Option (Shared × List Worker)) (t : RunState)
    → SameAll ks o
    → with_main main o ≡ some t
    → services_of (workers_of t) ≡ ks
with_main-Same ks main none t k h = absurd (no_step t h)
with_main-Same ks main (some (m', ws')) t k h =
    sym (ap (λ s. services_of (workers_of s)) (of_some (run_state m' ws' main) t h)) ∙ k

same_state :
    (s t : RunState) → some s ≡ some t → services_of (workers_of t) ≡ services_of (workers_of s)
same_state s t h = sym (ap (λ r. services_of (workers_of r)) (of_some s t h))

same_if :
    (b : Bool) (s t : RunState)
    → (if b then some s else none) ≡ some t
    → services_of (workers_of t) ≡ services_of (workers_of s)
same_if true s t h = same_state s t h
same_if false s t h = absurd (no_step t h)

step-Same :
    (capacity : ℕ) (s : RunState) (choice : Choice) (t : RunState)
    → run_step capacity s choice ≡ some t
    → services_of (workers_of t) ≡ services_of (workers_of s)
unfolding run_step
step-Same capacity (run_state (shared c wg n) ws looping) signals t h =
    same_state (run_state (shared true wg n) ws waiting) t h
step-Same capacity (run_state (shared c wg zero) ws looping) receives t h = absurd (no_step t h)
step-Same capacity (run_state (shared c wg (suc n)) ws looping) receives t h =
    same_state (run_state (shared true wg n) ws waiting) t h
step-Same capacity (run_state (shared c wg n) ws looping) all_done t h = absurd (no_step t h)
step-Same capacity (run_state (shared c wg n) ws looping) times_out t h = absurd (no_step t h)
step-Same capacity (run_state (shared c wg n) ws looping) (acts i a) t h =
    with_main-Same _ looping _ t (move_at-SameAll capacity (shared c wg n) ws i a) h
step-Same capacity (run_state (shared c wg n) ws waiting) signals t h = absurd (no_step t h)
step-Same capacity (run_state (shared c wg n) ws waiting) receives t h = absurd (no_step t h)
step-Same capacity (run_state (shared c wg n) ws waiting) all_done t h =
    same_if (wg == 0) (run_state (shared c wg n) ws graceful) t h
step-Same capacity (run_state (shared c wg n) ws waiting) times_out t h =
    same_state (run_state (shared c wg n) ws timed_out) t h
step-Same capacity (run_state (shared c wg n) ws waiting) (acts i a) t h =
    with_main-Same _ waiting _ t (move_at-SameAll capacity (shared c wg n) ws i a) h
step-Same capacity (run_state (shared c wg n) ws graceful) choice t h = absurd (no_step t h)
step-Same capacity (run_state (shared c wg n) ws timed_out) choice t h = absurd (no_step t h)

services-fresh : (ks : List Service) → services_of (fresh_workers ks) ≡ ks
services-fresh [] = refl
services-fresh (k ∷ ks) = ap (λ js. k ∷ js) (services-fresh ks)

pub Reach-services_of :
    (p : Agent) (s : RunState) → Reach p s → services_of (workers_of s) ≡ run_services p
unfolding start_state
Reach-services_of p s at_start = services-fresh (run_services p)
Reach-services_of p s (then_step r t choice reach h) =
    step-Same (error_capacity p) r choice s h ∙ Reach-services_of p r reach
