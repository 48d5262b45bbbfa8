-- ===== src/Mesh/Rotator.antt =====
-- internal/mesh/mtls/rotator/rotate.go: an action is repeated until it succeeds.
use polaris_sidecar.Prelude.{
  All, Bool, Bool-cases, List, [], ap, false, if◌then◌else◌, inl, inr, length, not, suc, true, ℕ,
  ◌++◌, ◌∷◌, ◌≡◌, ◌⊎◌,
}
use polaris_sidecar.Prelude.Int.{is_zero, pos, ℤ}

-- `time.Duration` counts nanoseconds.
pub record Rotator : Type 0 where
  pub period : ℤ
  pub retry_delay : ℤ

unfoldable pub init_rotator : Rotator → Rotator
init_rotator r = record {
  period = if is_zero r.period then pos 1800000000000 else r.period;
  retry_delay = if is_zero r.retry_delay then pos 1000000000 else r.retry_delay;
}

-- One call of the action: whether it fails, and whether the context is cancelled after it.
pub record Attempt : Type 0 where
  pub failed : Bool
  pub cancelled : Bool

pub data Execution : Type 0 where
  succeeded gave_up retrying : Execution

-- The loop of `execute` over the calls that are made: how it stands after them, how often it slept,
-- and the calls that it does not make.
unfoldable pub execute : List Attempt → Execution × ℕ × List Attempt
execute [] = (retrying, 0, [])
execute (a ∷ attempts) =
    let (end, sleeps, rest) = execute attempts in
    if not a.failed
    then (succeeded, 0, attempts)
    else if a.cancelled
    then (gave_up, 0, attempts)
    else (end, suc sleeps, rest)

-- A call that is to be repeated.
abbrev pub IsRetried : Attempt → Type 0
IsRetried a = (a.failed ≡ true) × (a.cancelled ≡ false)

-- Failing calls are repeated, each after one delay, up to the first that succeeds or after which
-- the context is cancelled; no call is made behind that one.
pub execute_lem :
    (before : List Attempt) (a : Attempt) (rest : List Attempt)
    → All IsRetried before
    → (a.failed ≡ false) ⊎ (a.cancelled ≡ true)
    → execute (before ++ a ∷ rest)
      ≡ ((if a.failed then gave_up else succeeded), length before, rest)
unfolding execute
execute_lem [] a rest h (inl f) = rw f
execute_lem [] a rest h (inr c) = elim (Bool-cases a.failed) [ inl f ↦ rw (f, c) | inr f ↦ rw f ]
execute_lem (b ∷ before) a rest h s =
    rw (h.0.0, h.0.1) (ap (λ t. (t.0, suc t.1, t.2)) (execute_lem before a rest h.1 s))
