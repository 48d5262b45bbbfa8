-- ===== src/Mesh/Metrics.antt =====
-- internal/mesh/metrics: the counters that Envoy shows of its hosts are reported to Polaris, as calls
-- since the last report. Times are nanoseconds.
pub mod Conserved
pub mod Delays
pub mod Report
pub mod Named
pub mod Round
use polaris_sidecar.Prelude.{
  Bool, List, Option, [], if◌then◌else◌, leb, ltb, none, replicate, some, ℕ, ◌&&◌, ◌++◌, ◌+◌, ◌-◌,
  ◌==◌, ◌^◌, ◌∷◌,
}
use polaris_sidecar.Prelude.Text.{Str, codes, str_eq}

pub record InstanceMetricKey : Type 0 where
  pub cluster_name : Str
  pub host : Str
  pub port : ℕ

unfoldable pub key_eq : InstanceMetricKey → InstanceMetricKey → Bool
key_eq k j = str_eq k.cluster_name j.cluster_name && str_eq k.host j.host && k.port == j.port

pub record InstanceMetricValue : Type 0 where
  pub rq_success : ℕ
  pub rq_error : ℕ
  pub rq_total : ℕ
  pub last_active_time : ℕ

-- `map[InstanceMetricKey]*InstanceMetricValue`
abbrev pub Values : Type 0
Values = List (InstanceMetricKey × InstanceMetricValue)

unfoldable pub find_value : InstanceMetricKey → Values → Option InstanceMetricValue
unfolding key_eq
find_value k [] = none
find_value k ((j, v) ∷ values) = if key_eq j k then some v else find_value k values

unfoldable pub store_value : InstanceMetricKey → InstanceMetricValue → Values → Values
unfolding key_eq
store_value k v [] = (k, v) ∷ []
store_value k v ((j, w) ∷ values) =
    if key_eq j k then (k, v) ∷ values else (j, w) ∷ store_value k v values

-- The cleanup of the values that were not updated for 5 minutes.
unfoldable pub clean : ℕ → Values → Values
clean now [] = []
clean now ((k, v) ∷ values) =
    if ltb (v.last_active_time + 300000000000) now
    then clean now values
    else (k, v) ∷ clean now values

-- A tick: every tenth one cleans up.
unfoldable pub tick : ℕ → ℕ × Values → ℕ × Values
unfolding clean
tick now (clean_counter, values) =
    if leb 10 (clean_counter + 1) then (0, clean now values) else (clean_counter + 1, values)

-- A counter of a host, by its name.
unfoldable pub read_stats : List (Str × ℕ) → InstanceMetricValue → InstanceMetricValue
read_stats [] v = v
read_stats ((name, n) ∷ stats) v = read_stats stats (
    if str_eq name (codes "rq_total")
    then record v { rq_total = n }
    else if str_eq name (codes "rq_success")
    then record v { rq_success = n }
    else if str_eq name (codes "rq_error")
    then record v { rq_error = n }
    else v)

abbrev pub grown : ℕ → ℕ → ℕ
grown new old = if ltb old new then new - old else 0

unfoldable pub sub_value :
    ℕ → InstanceMetricValue → Option InstanceMetricValue → InstanceMetricValue
sub_value now v none = v
sub_value now v (some latest) = record {
  rq_success = grown v.rq_success latest.rq_success;
  rq_error = grown v.rq_error latest.rq_error;
  rq_total = grown v.rq_total latest.rq_total;
  last_active_time = now;
}

-- A call that is reported, with its code.
pub data Call : Type 0 where
  ret_success ret_fail : Call

-- `i < int(n)` for an unsigned `n` of 64 bits.
unfoldable pub rounds_of : ℕ → ℕ
rounds_of n = if ltb n (2 ^ 63) then n else 0

unfoldable pub report_metrics : InstanceMetricValue → List Call
unfolding rounds_of
report_metrics v =
    replicate (rounds_of v.rq_success) ret_success ++ replicate (rounds_of v.rq_error) ret_fail

-- The body of the loop over the hosts of a cluster.
unfoldable pub report_host : ℕ → InstanceMetricKey → List (Str × ℕ) → Values → Values × List Call
unfolding find_value store_value read_stats sub_value report_metrics
report_host now k stats values =
    let v =
      read_stats stats
        (record { rq_success = 0; rq_error = 0; rq_total = 0; last_active_time = now }) in
    (store_value k v values, report_metrics (sub_value now v (find_value k values)))
