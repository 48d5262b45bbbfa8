-- ===== src/Tests/Counters.antt =====
-- The counters and the delays of Envoy: internal/mesh/metrics.
use polaris_sidecar.Config.{RlsConfig}
use polaris_sidecar.Mesh.Metrics.{
  InstanceMetricKey, find_value, key_eq, read_stats, report_host, store_value,
}
use polaris_sidecar.Mesh.Metrics.Delays.{after_dot, cluster_of, matches_cluster}
use polaris_sidecar.Mesh.Metrics.Named.{IsCluster, cluster_of_lem, stat_name}
use polaris_sidecar.Mesh.Metrics.Report.{
  ClusterStatus, report_clusters, report_hosts, report_listed, report_status, report_status_lem,
  sum,
}
use polaris_sidecar.Mesh.Metrics.Round.{last_shown, or_old, report_clusters_lem}
use polaris_sidecar.Mesh.Options.{has_prefix}
use polaris_sidecar.Mesh.RateLimit.{RateLimitServer, destroy_rls, listener_closed, socket_removed}
use polaris_sidecar.Mesh.RateLimit.Start.{RlsHost, destroy_rls-start_rls, start_rls}
use polaris_sidecar.Prelude.{
  Bool, List, [], false, if◌then◌else◌, length, ltb, none, not, refl, some, true, ℕ, ◌&&◌, ◌↔◌, ◌∷◌,
  ◌≡◌, ◌≤◌,
}
use polaris_sidecar.Prelude.Text.{codes, has_suffix, last_index, str_eq}

shop_cluster : cluster_of (codes "cluster.shop.v1.upstream_rq_time") ≡ some (codes "shop.v1")
unfolding cluster_of matches_cluster after_dot has_prefix has_suffix str_eq last_index
shop_cluster = refl

cluster_of_lem_example :
    (cluster_of (codes "cluster.shop.v1.upstream_rq_time") ≡ some (codes "shop.v1")) ↔ (
      (codes "cluster.shop.v1.upstream_rq_time" ≡ stat_name (codes "shop.v1"))
      × IsCluster (codes "shop.v1"))
cluster_of_lem_example = cluster_of_lem (codes "cluster.shop.v1.upstream_rq_time") (codes "shop.v1")

abbrev twice : ℕ → Bool
twice n = ltb n 2

report_status_lem_example :
    ((report_status twice).0 ≡ not (twice 0 && twice 1 && twice 2))
    × (length (report_status twice).1 ≡ (
        if not (twice 0) then 0 else if not (twice 1) then 1 else if not (twice 2) then 2 else 3))
    × (sum (report_status twice).1 ≤ 700000000)
report_status_lem_example = report_status_lem twice

abbrev shop_host : InstanceMetricKey
shop_host = record { cluster_name = codes "shop"; host = codes "10.0.0.1"; port = 80 }

abbrev shop_clusters : List ClusterStatus
shop_clusters =
    record {
      name = codes "shop";
      host_statuses =
          record { socket_address = none; stats = [] }
          ∷ record {
            socket_address = some (record { address = codes "10.0.0.1"; port_value = 80 });
            stats = (codes "rq_success", 3) ∷ (codes "rq_total", 4) ∷ [];
          }
          ∷ [];
    }
    ∷ []

shop_counted :
    find_value shop_host (report_clusters {D = ℕ} 0 7 [] shop_clusters []).0
    ≡ some (record { rq_success = 3; rq_error = 0; rq_total = 4; last_active_time = 7 })
unfolding find_value report_clusters report_hosts report_listed report_host store_value read_stats
    key_eq str_eq
shop_counted = refl

report_clusters_lem_example :
    find_value shop_host (report_clusters {D = ℕ} 0 7 [] shop_clusters []).0
    ≡ or_old (last_shown 7 shop_host shop_clusters) (find_value shop_host [])
report_clusters_lem_example = report_clusters_lem {D = ℕ} 0 7 shop_host [] shop_clusters []

-- A rate limit server whose limiter cannot be had.
abbrev no_limits : RlsHost
no_limits = record {
  mkdir = λ s. true;
  listen = λ n a. true;
  limit_api = false;
  read_cert = λ t. true;
}

abbrev on_socket : RlsConfig
on_socket = record {
  enable = true;
  network = codes "unix";
  address = codes "/tmp/rls.sock";
  bind_port = 0;
  tls_info = none;
}

destroy_rls-start_rls_example :
    let svr : RateLimitServer = record {
      namespace = codes "default";
      conf = on_socket;
      limiter = false;
      grpc_svr = false;
      listener = false;
      once = false;
    } in
    ((destroy_rls (λ s. s) (start_rls no_limits svr).0).1
      ≡ listener_closed ∷ socket_removed (codes "/tmp/rls.sock") ∷ [])
    × (((start_rls no_limits svr).1 ≡ none) ↔ (false ≡ true))
unfolding str_eq
destroy_rls-start_rls_example = destroy_rls-start_rls no_limits (λ s. s) (codes "default") on_socket
