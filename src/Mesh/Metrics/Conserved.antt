-- ===== src/Mesh/Metrics/Conserved.antt =====
-- What the metrics server of internal/mesh/metrics/server.go reports in all.
use polaris_sidecar.Mesh.Metrics.{
  Call, InstanceMetricKey, InstanceMetricValue, Values, clean, find_value, grown, key_eq,
  read_stats, report_host, report_metrics, ret_fail, ret_success, rounds_of, store_value, sub_value,
  tick,
}
use polaris_sidecar.Prelude.{
  Bool-cases, List, Option, [], ap, arith, inl, inr, leb, none, refl, replicate, some, subst, suc,
  sym, true, zero, ℕ, ◌++◌, ◌+◌, ◌<◌, ◌^◌, ◌∙◌, ◌∷◌, ◌≡◌, ◌≤◌,
}
use polaris_sidecar.Prelude.Text.{Str, codes, str_eq, str_eq_refl}

-- A tick of the loop of `Run`: when its cleanup looks at the clock, and the time and the counters
-- of the host, if the round lists it.
abbrev pub Tick : Type 0
Tick = ℕ × Option (ℕ × List (Str × ℕ))

-- The values that are read at a time.
abbrev pub read : ℕ → List (Str × ℕ) → InstanceMetricValue
read at stats =
    read_stats stats (record { rq_success = 0; rq_error = 0; rq_total = 0; last_active_time = at })

-- What a round makes of the host.
unfoldable pub report_listing :
    InstanceMetricKey → Option (ℕ × List (Str × ℕ)) → Values → Values × List Call
unfolding report_host
report_listing k none values = (values, [])
report_listing k (some (at, stats)) values = report_host at k stats values

-- All calls that the loop of `Run` reports for one host, with the cleanup of every tenth tick.
unfoldable pub report_ticks : InstanceMetricKey → List Tick → ℕ × Values → List Call
unfolding tick report_listing
report_ticks k [] state = []
report_ticks k (t ∷ ticks) state =
    let (clean_counter, kept) = tick t.0 state in
    let (values, calls) = report_listing k t.1 kept in
    calls ++ report_ticks k ticks (clean_counter, values)

unfoldable pub count_success : List Call → ℕ
count_success [] = 0
count_success (ret_success ∷ calls) = suc (count_success calls)
count_success (ret_fail ∷ calls) = count_success calls

-- The counter at the last listing, or else another.
unfoldable pub last_success : List Tick → ℕ → ℕ
last_success [] n = n
last_success (t ∷ ticks) n =
    last_success ticks (elim t.1 [ none ↦ n | some (at, stats) ↦ (read at stats).rq_success ])

-- From a listing on, at the time and with the counter that are given: no cleanup comes more than 5
-- minutes behind the last listing, and the counter never falls, and it fits 63 bits.
unfoldable pub Grows : List Tick → ℕ → ℕ → Type 0
Grows [] last n = Unit
Grows (t ∷ ticks) last n = (t.0 ≤ last + 300000000000) × elim t.1 [
  | none ↦ Grows ticks last n
  | some (at, stats) ↦
      (n ≤ (read at stats).rq_success)
      × ((read at stats).rq_success < 2 ^ 63)
      × Grows ticks at (read at stats).rq_success
]

-- The same from the first listing on.
unfoldable pub GrowsOnceListed : List Tick → Type 0
unfolding Grows
GrowsOnceListed [] = Unit
GrowsOnceListed (t ∷ ticks) = elim t.1 [
  | none ↦ GrowsOnceListed ticks
  | some (at, stats) ↦
      ((read at stats).rq_success < 2 ^ 63) × Grows ticks at (read at stats).rq_success
]

key_eq_refl : (k : InstanceMetricKey) → key_eq k k ≡ true
unfolding key_eq
key_eq_refl k = ground (arith, str_eq_refl k.cluster_name, str_eq_refl k.host)

find_value-store_value :
    (k : InstanceMetricKey) (v : InstanceMetricValue) (values : Values)
    → find_value k (store_value k v values) ≡ some v
unfolding find_value store_value
find_value-store_value k v [] = rw (key_eq_refl k)
find_value-store_value k v ((j, w) ∷ values) =
    ground (arith, key_eq_refl k, find_value-store_value k v values)

count_success-append :
    (xs ys : List Call) → count_success (xs ++ ys) ≡ count_success xs + count_success ys
unfolding count_success
count_success-append [] ys = omega arith
count_success-append (ret_success ∷ xs) ys = omega (arith, count_success-append xs ys)
count_success-append (ret_fail ∷ xs) ys = omega (arith, count_success-append xs ys)

count_success-replicate : (n : ℕ) → count_success (replicate n ret_success) ≡ n
unfolding count_success
count_success-replicate zero = refl
count_success-replicate (suc n) = ap (λ k. suc k) (count_success-replicate n)

count_fail-replicate : (n : ℕ) → count_success (replicate n ret_fail) ≡ 0
unfolding count_success
count_fail-replicate zero = refl
count_fail-replicate (suc n) = count_fail-replicate n

rounds_of_small : (n : ℕ) → n < 2 ^ 63 → rounds_of n ≡ n
unfolding rounds_of
rounds_of_small n h = ground arith

grown_lem : (new old : ℕ) → old ≤ new → old + grown new old ≡ new
grown_lem new old h = ground arith

count_success-report_metrics :
    (v : InstanceMetricValue)
    → v.rq_success < 2 ^ 63
    → count_success (report_metrics v) ≡ v.rq_success
unfolding report_metrics
count_success-report_metrics v h =
    count_success-append (replicate (rounds_of v.rq_success) ret_success)
      (replicate (rounds_of v.rq_error) ret_fail)
    ∙ omega (
      arith,
      count_success-replicate (rounds_of v.rq_success),
      count_fail-replicate (rounds_of v.rq_error),
      rounds_of_small v.rq_success h,
    )

read_stats-time :
    (stats : List (Str × ℕ)) (v : InstanceMetricValue)
    → (read_stats stats v).last_active_time ≡ v.last_active_time
unfolding read_stats
read_stats-time [] v = refl
read_stats-time ((name, n) ∷ stats) v =
    read_stats-time stats _ ∙ elim (Bool-cases (str_eq name (codes "rq_total"))) [
      | inl e ↦ rw e refl
      | inr e ↦ elim (Bool-cases (str_eq name (codes "rq_success"))) [
        | inl f ↦ rw (e, f) refl
        | inr f ↦ elim (Bool-cases (str_eq name (codes "rq_error"))) [
          | inl g ↦ rw (e, f, g) refl
          | inr g ↦ rw (e, f, g) refl
        ]
      ]
    ]

-- The cleanup keeps a value that is not too old, and adds none.
clean-kept :
    (now : ℕ) (k : InstanceMetricKey) (values : Values) (v : InstanceMetricValue)
    → now ≤ v.last_active_time + 300000000000
    → find_value k values ≡ some v
    → find_value k (clean now values) ≡ some v
unfolding find_value clean
clean-kept now k [] v h e = cc
clean-kept now k ((j, w) ∷ values) v h e = ground (arith, clean-kept now k values v)

clean-none :
    (now : ℕ) (k : InstanceMetricKey) (values : Values)
    → find_value k values ≡ none
    → find_value k (clean now values) ≡ none
unfolding find_value clean
clean-none now k [] e = refl
clean-none now k ((j, w) ∷ values) e = ground (arith, clean-none now k values)

tick-kept :
    (now : ℕ) (k : InstanceMetricKey) (c : ℕ) (values : Values) (v : InstanceMetricValue)
    → now ≤ v.last_active_time + 300000000000
    → find_value k values ≡ some v
    → find_value k (tick now (c, values)).1 ≡ some v
unfolding tick
tick-kept now k c values v h e = elim (Bool-cases (leb 10 (c + 1))) [
  | inl f ↦ rw f (clean-kept now k values v h e)
  | inr f ↦ rw f e
]

tick-none :
    (now : ℕ) (k : InstanceMetricKey) (c : ℕ) (values : Values)
    → find_value k values ≡ none
    → find_value k (tick now (c, values)).1 ≡ none
unfolding tick
tick-none now k c values e = elim (Bool-cases (leb 10 (c + 1))) [
  | inl f ↦ rw f (clean-none now k values e)
  | inr f ↦ rw f e
]

-- The calls of one look, for a host that was seen before or not.
calls_first :
    (k : InstanceMetricKey) (at : ℕ) (stats : List (Str × ℕ)) (values : Values)
    → find_value k values ≡ none
    → (read at stats).rq_success < 2 ^ 63
    → count_success (report_host at k stats values).1 ≡ (read at stats).rq_success
unfolding report_host sub_value
calls_first k at stats values e h =
    rw (e, sub_value) (count_success-report_metrics (read at stats) h)

calls_next :
    (k : InstanceMetricKey) (at : ℕ) (stats : List (Str × ℕ)) (values : Values)
    (v : InstanceMetricValue)
    → find_value k values ≡ some v
    → v.rq_success ≤ (read at stats).rq_success
    → (read at stats).rq_success < 2 ^ 63
    → v.rq_success + count_success (report_host at k stats values).1 ≡ (read at stats).rq_success
unfolding report_host sub_value
calls_next k at stats values v e g h =
    rw (e, sub_value)
      (ap (λ t. v.rq_success + t)
          (count_success-report_metrics (sub_value at (read at stats) (some v))
            (omega (arith, grown_lem (read at stats).rq_success v.rq_success g)))
        ∙ grown_lem (read at stats).rq_success v.rq_success g)

stored_next :
    (k : InstanceMetricKey) (at : ℕ) (stats : List (Str × ℕ)) (values : Values)
    → find_value k (report_host at k stats values).0 ≡ some (read at stats)
unfolding report_host
stored_next k at stats values = find_value-store_value k (read at stats) values

-- Behind a listing whose counter is stored, the calls that are reported are those that the counter
-- grows by.
report_ticks-stored :
    (k : InstanceMetricKey) (ticks : List Tick) (c : ℕ) (values : Values) (v : InstanceMetricValue)
    → find_value k values ≡ some v
    → Grows ticks v.last_active_time v.rq_success
    → v.rq_success + count_success (report_ticks k ticks (c, values))
      ≡ last_success ticks v.rq_success
unfolding report_ticks last_success count_success Grows report_listing
report_ticks-stored k [] c values v e h = omega arith
report_ticks-stored k ((now, none) ∷ ticks) c values v e h =
    let (c', kept) = tick now (c, values) in
    report_ticks-stored k ticks c' kept v (tick-kept now k c values v h.0 e) h.1
report_ticks-stored k ((now, some (at, stats)) ∷ ticks) c values v e h =
    let (c', kept) = tick now (c, values) in
    let there = tick-kept now k c values v h.0 e in
    let (values', calls) = report_host at k stats kept in
    let first = calls_next k at stats kept v there h.1.0 h.1.1 in
    let grows =
      subst (λ last. Grows ticks last (read at stats).rq_success) (sym (read_stats-time stats _))
        h.1.2 in
    let rest =
      report_ticks-stored k ticks c' values' (read at stats) (stored_next k at stats kept) grows in
    omega (arith, count_success-append calls (report_ticks k ticks (c', values')), first) ∙ rest

-- For a host that was not seen before, as many successful calls are reported in all as its counter
-- shows at the last listing, if the counter never falls and fits 63 bits, and no cleanup comes more
-- than 5 minutes behind the last listing.
pub report_ticks_lem :
    (k : InstanceMetricKey) (ticks : List Tick) (c : ℕ) (values : Values)
    → find_value k values ≡ none
    → GrowsOnceListed ticks
    → count_success (report_ticks k ticks (c, values)) ≡ last_success ticks 0
unfolding report_ticks last_success count_success GrowsOnceListed report_listing
report_ticks_lem k [] c values e h = refl
report_ticks_lem k ((now, none) ∷ ticks) c values e h =
    let (c', kept) = tick now (c, values) in
    report_ticks_lem k ticks c' kept (tick-none now k c values e) h
report_ticks_lem k ((now, some (at, stats)) ∷ ticks) c values e h =
    let (c', kept) = tick now (c, values) in
    let (values', calls) = report_host at k stats kept in
    let first = calls_first k at stats kept (tick-none now k c values e) h.0 in
    let grows =
      subst (λ last. Grows ticks last (read at stats).rq_success) (sym (read_stats-time stats _))
        h.1 in
    let rest =
      report_ticks-stored k ticks c' values' (read at stats) (stored_next k at stats kept) grows in
    omega (arith, count_success-append calls (report_ticks k ticks (c', values')), first) ∙ rest
