-- ===== src/Mesh/Metrics/Round.antt =====
-- What a round of internal/mesh/metrics/server.go leaves of every host.
use polaris_sidecar.Mesh.Metrics.{
  InstanceMetricKey, InstanceMetricValue, Values, find_value, key_eq, read_stats, report_host,
  store_value,
}
use polaris_sidecar.Mesh.Metrics.Report.{
  ClusterStatus, HostStatus, SocketAddress, key_of, report_clusters, report_hosts, report_listed,
}
use polaris_sidecar.Prelude.{
  Bool, List, Option, [], ap, arith, false, if◌then◌else◌, none, refl, some, subst, true, ℕ, ◌==◌,
  ◌↔◌, ◌∙◌, ◌∷◌, ◌≡◌,
}
use polaris_sidecar.Prelude.Assoc.{Assoc}
use polaris_sidecar.Prelude.Text.{Str, str_eq_iff, str_eq_refl}

same_port : (a b : ℕ) → (a == b) ≡ true → a ≡ b
same_port a b h = ground arith

same_key : (k : InstanceMetricKey) → key_eq k k ≡ true
unfolding key_eq
same_key k = ground (arith, str_eq_refl k.cluster_name, str_eq_refl k.host)

key_eq_iff : (k j : InstanceMetricKey) → (key_eq k j ≡ true) ↔ (k ≡ j)
unfolding key_eq
key_eq_iff k j = (
  (λ h. λ i. record {
    cluster_name = (str_eq_iff k.cluster_name j.cluster_name).0 (ground arith) i;
    host = (str_eq_iff k.host j.host).0 (ground arith) i;
    port = same_port k.port j.port (ground arith) i;
  }),
  λ h. subst (λ t. key_eq k t ≡ true) h (same_key k),
)

find_value-store :
    (k j : InstanceMetricKey) (v : InstanceMetricValue) (values : Values)
    → find_value j (store_value k v values) ≡ (if key_eq k j then some v else find_value j values)
unfolding find_value store_value
find_value-store k j v [] = refl
find_value-store k j v ((i, w) ∷ values) =
    ground (arith, key_eq_iff k j, key_eq_iff i k, key_eq_iff i j, find_value-store k j v values)

abbrev pub or_old :
    Option InstanceMetricValue → Option InstanceMetricValue → Option InstanceMetricValue
or_old none old = old
or_old (some v) old = some v

or_old_if :
    (b : Bool) (v : InstanceMetricValue) (old : Option InstanceMetricValue)
    → (if b then some v else old) ≡ or_old (if b then some v else none) old
or_old_if true v old = refl
or_old_if false v old = refl

or_old_assoc : (a b c : Option InstanceMetricValue) → or_old a (or_old b c) ≡ or_old (or_old a b) c
or_old_assoc none b c = refl
or_old_assoc (some a) b c = refl

-- What the last listing of a host shows.
module _ (now : ℕ) (k : InstanceMetricKey) where
  unfoldable pub shown_by : Str → Option SocketAddress → List (Str × ℕ) → Option InstanceMetricValue
  shown_by name none stats = none
  shown_by name (some a) stats =
      if key_eq (key_of name a) k
      then some (
          read_stats stats
            (record { rq_success = 0; rq_error = 0; rq_total = 0; last_active_time = now }))
      else none

  unfoldable pub last_host : Str → List HostStatus → Option InstanceMetricValue
  last_host name [] = none
  last_host name (h ∷ hs) = or_old (last_host name hs) (shown_by name h.socket_address h.stats)

  unfoldable pub last_shown : List ClusterStatus → Option InstanceMetricValue
  last_shown [] = none
  last_shown (c ∷ cs) = or_old (last_shown cs) (last_host c.name c.host_statuses)

module _ {D : Type 0} (zero_delay : D) (now : ℕ) (k : InstanceMetricKey) where
  listed_lem :
      (name : Str) (d : D) (o : Option SocketAddress) (stats : List (Str × ℕ)) (values : Values)
      → find_value k (report_listed zero_delay now name d o stats values).0
        ≡ or_old (shown_by now k name o stats) (find_value k values)
  unfolding report_listed report_host shown_by
  listed_lem name d none stats values = refl
  listed_lem name d (some a) stats values =
      find_value-store (key_of name a) k _ values ∙ or_old_if (key_eq (key_of name a) k) _ _

  hosts_lem :
      (name : Str) (d : D) (hs : List HostStatus) (values : Values)
      → find_value k (report_hosts zero_delay now name d hs values).0
        ≡ or_old (last_host now k name hs) (find_value k values)
  unfolding report_hosts last_host
  hosts_lem name d [] values = refl
  hosts_lem name d (h ∷ hs) values =
      hosts_lem name d hs _
      ∙ ap (or_old (last_host now k name hs)) (listed_lem name d h.socket_address h.stats values)
      ∙ or_old_assoc (last_host now k name hs) _ _

  -- After a round, the value of a host is what its last listing shows, or what it was if the host
  -- is not listed.
  pub report_clusters_lem :
      (delays : Assoc D) (cs : List ClusterStatus) (values : Values)
      → find_value k (report_clusters zero_delay now delays cs values).0
        ≡ or_old (last_shown now k cs) (find_value k values)
  unfolding report_clusters last_shown
  report_clusters_lem delays [] values = refl
  report_clusters_lem delays (c ∷ cs) values =
      report_clusters_lem delays cs _
      ∙ ap (or_old (last_shown now k cs)) (hosts_lem c.name _ c.host_statuses values)
      ∙ or_old_assoc (last_shown now k cs) _ _
