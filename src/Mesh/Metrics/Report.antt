-- ===== src/Mesh/Metrics/Report.antt =====
-- A round of reports of internal/mesh/metrics/server.go: over the hosts of the clusters, and how a
-- report is repeated.
use polaris_sidecar.Config.Env.{Env}
use polaris_sidecar.Mesh.Metrics.{Call, InstanceMetricKey, Values, report_host}
use polaris_sidecar.Mesh.Metrics.Delays.{Stat, parse_upstream_delay}
use polaris_sidecar.Prelude.{
  Bool, Bool-cases, List, Option, [], arith, false, if◌then◌else◌, inl, inr, is_empty, length, ltb,
  none, not, refl, some, suc, true, zero, ℕ, ◌&&◌, ◌*◌, ◌++◌, ◌+◌, ◌^◌, ◌∷◌, ◌≡◌, ◌≤◌,
}
use polaris_sidecar.Prelude.Assoc.{Assoc, lookup}
use polaris_sidecar.Prelude.Text.{Str, codes}

pub record SocketAddress : Type 0 where
  pub address : Str
  pub port_value : ℕ

-- A host whose address is no socket has none.
pub record HostStatus : Type 0 where
  pub socket_address : Option SocketAddress
  pub stats : List (Str × ℕ)

pub record ClusterStatus : Type 0 where
  pub name : Str
  pub host_statuses : List HostStatus

-- A call that is reported, of a host, with the delay of its cluster.
pub record Report (D : Type 0) : Type 0 where
  pub key : InstanceMetricKey
  pub call : Call
  pub delay : D

abbrev pub key_of : Str → SocketAddress → InstanceMetricKey
key_of name a = record { cluster_name = name; host = a.address; port = a.port_value }

-- `zero_delay` is the float that a missing key reads as, and `now` the time of the round.
module _ {D : Type 0} (zero_delay : D) (now : ℕ) where
  unfoldable pub delay_of : Assoc D → Str → D
  delay_of delays name = elim (lookup name delays) [ none ↦ zero_delay | some d ↦ d ]

  abbrev pub reports : InstanceMetricKey → D → List Call → List (Report D)
  reports k d [] = []
  reports k d (c ∷ cs) = record { key = k; call = c; delay = d } ∷ reports k d cs

  -- The body of the loop over the hosts; one without a socket is skipped.
  unfoldable pub report_listed :
      Str → D → Option SocketAddress → List (Str × ℕ) → Values → Values × List (Report D)
  unfolding report_host
  report_listed name d none stats values = (values, [])
  report_listed name d (some a) stats values =
      let (values', calls) = report_host now (key_of name a) stats values in
      (values', reports (key_of name a) d calls)

  unfoldable pub report_hosts : Str → D → List HostStatus → Values → Values × List (Report D)
  unfolding report_listed
  report_hosts name d [] values = (values, [])
  report_hosts name d (h ∷ hs) values =
      let (values', first) = report_listed name d h.socket_address h.stats values in
      let (values'', rest) = report_hosts name d hs values' in (values'', first ++ rest)

  unfoldable pub report_clusters : Assoc D → List ClusterStatus → Values → Values × List (Report D)
  unfolding report_hosts delay_of
  report_clusters delays [] values = (values, [])
  report_clusters delays (c ∷ cs) values =
      let (values', first) = report_hosts c.name (delay_of delays c.name) c.host_statuses values in
      let (values'', rest) = report_clusters delays cs values' in (values'', first ++ rest)

  -- `reportMetricByCluster`: `none` is an answer that cannot be had or read.
  unfoldable pub report_metric_by_cluster :
      Option (List ClusterStatus) → Option (List (Stat D)) → Values → Values × List (Report D)
  unfolding report_clusters parse_upstream_delay
  report_metric_by_cluster none stats values = (values, [])
  report_metric_by_cluster (some clusters) stats values =
      report_clusters (parse_upstream_delay stats) clusters values

-- Where the clusters are asked for.
unfoldable pub cluster_url : Str → Env → Str
cluster_url configured_url env =
    if not (is_empty configured_url)
    then configured_url
    else if not (is_empty (env (codes "CLUSTER_METRICS_URL")))
    then env (codes "CLUSTER_METRICS_URL")
    else codes "http://127.0.0.1:15000"

-- The delay behind a failed attempt, in nanoseconds.
unfoldable pub sleep_time : ℕ → ℕ
sleep_time attempt =
    if ltb 5000000000 (2 ^ attempt * 100000000) then 5000000000 else 2 ^ attempt * 100000000

-- The loop of `reportStatus` over the attempts that are left: whether one succeeds, and the delays.
-- `fails` tells which attempts fail.
unfoldable pub try_report : (ℕ → Bool) → ℕ → ℕ → Bool × List ℕ
unfolding sleep_time
try_report fails attempt zero = (false, [])
try_report fails attempt (suc left) =
    let (good, sleeps) = try_report fails (suc attempt) left in
    if not (fails attempt) then (true, []) else (good, sleep_time attempt ∷ sleeps)

unfoldable pub report_status : (ℕ → Bool) → Bool × List ℕ
unfolding try_report
report_status fails = try_report fails 0 3

abbrev pub sum : List ℕ → ℕ
sum [] = 0
sum (n ∷ ns) = n + sum ns

-- A report is given up exactly if three attempts fail; each failed attempt is followed by a delay,
-- and the delays are no more than 0.7 seconds in all.
pub report_status_lem :
    (fails : ℕ → Bool)
    → ((report_status fails).0 ≡ not (fails 0 && fails 1 && fails 2))
      × (length (report_status fails).1 ≡ (
          if not (fails 0) then 0 else if not (fails 1) then 1 else if not (fails 2) then 2 else 3))
      × (sum (report_status fails).1 ≤ 700000000)
unfolding report_status try_report sleep_time
report_status_lem fails = elim (Bool-cases (fails 0)) [
  | inr e ↦ rw e (refl, refl, omega arith)
  | inl e ↦ elim (Bool-cases (fails 1)) [
    | inr f ↦ rw (e, f) (refl, refl, omega arith)
    | inl f ↦ elim (Bool-cases (fails 2)) [
      | inr g ↦ rw (e, f, g) (refl, refl, omega arith)
      | inl g ↦ rw (e, f, g) (refl, refl, omega arith)
    ]
  ]
]
