-- ===== src/Mesh/Metrics/Delays.antt =====
-- parseUpstreamDelay of internal/mesh/metrics/server.go: the delay of each cluster, from the
-- statistics of Envoy. No element of their lists is null.
use polaris_sidecar.Mesh.Options.{has_prefix}
use polaris_sidecar.Prelude.{
  Bool, List, Option, [], drop, if◌then◌else◌, length, ltb, none, not, some, take, true, ◌&&◌, ◌==◌,
  ◌∷◌,
}
use polaris_sidecar.Prelude.Assoc.{Assoc, insert}
use polaris_sidecar.Prelude.Text.{Str, codes, cut_end, has_suffix, last_index}

-- What a field of any JSON type holds.
pub data Cumulative (D : Type 0) : Type 0 where
  absent not_number : Cumulative D
  number_of : D → Cumulative D

pub record Quantile (D : Type 0) : Type 0 where
  pub name : Str
  pub values : List (Cumulative D)

-- The computed quantiles of a statistic, if it is a histogram.
pub record Stat (D : Type 0) : Type 0 where
  pub histograms : Option (List (Quantile D))

abbrev pub cluster_prefix : Str
cluster_prefix = codes "cluster."

abbrev pub time_suffix : Str
time_suffix = codes ".upstream_rq_time"

abbrev pub no_newline : Str → Bool
no_newline [] = true
no_newline (c ∷ s) = not (c == b'\n') && no_newline s

-- `clusterRegex`, where the dot matches any byte but a newline.
unfoldable pub matches_cluster : Str → Bool
unfolding has_prefix has_suffix
matches_cluster s =
    has_prefix s cluster_prefix
    && has_suffix (drop (length cluster_prefix) s) time_suffix
    && ltb (length time_suffix) (length (drop (length cluster_prefix) s))
    && no_newline (cut_end (drop (length cluster_prefix) s) time_suffix)

-- What is behind the first dot.
unfoldable pub after_dot : Str → Option Str
after_dot [] = none
after_dot (c ∷ s) = let rest = after_dot s in if c == b'.' then some s else rest

-- The name of the cluster, between the first dot and the last.
unfoldable pub cluster_of : Str → Option Str
unfolding matches_cluster after_dot
cluster_of name = if not (matches_cluster name) then none else elim (after_dot name) [
  | none ↦ none
  | some rest ↦ elim (last_index b'.' rest) [ none ↦ none | some i ↦ some (take i rest) ]
]

module _ {D : Type 0} where
  -- The median, if it is a number.
  unfoldable pub median : List (Cumulative D) → Option D
  median (_ ∷ _ ∷ number_of d ∷ vs) = some d
  median vs = none

  unfoldable pub store_quantile : Quantile D → Assoc D → Assoc D
  unfolding cluster_of median
  store_quantile q delays = elim (cluster_of q.name) [
    | none ↦ delays
    | some svc_name ↦ elim (median q.values) [ none ↦ delays | some d ↦ insert svc_name d delays ]
  ]

  unfoldable pub store_quantiles : List (Quantile D) → Assoc D → Assoc D
  unfolding store_quantile
  store_quantiles [] delays = delays
  store_quantiles (q ∷ qs) delays = store_quantiles qs (store_quantile q delays)

  unfoldable pub store_stats : List (Stat D) → Assoc D → Assoc D
  unfolding store_quantiles
  store_stats [] delays = delays
  store_stats (s ∷ stats) delays =
      store_stats stats (elim s.histograms [ none ↦ delays | some qs ↦ store_quantiles qs delays ])

  -- `none` is an answer that cannot be had or read.
  unfoldable pub parse_upstream_delay : Option (List (Stat D)) → Assoc D
  unfolding store_stats
  parse_upstream_delay none = []
  parse_upstream_delay (some stats) = store_stats stats []
