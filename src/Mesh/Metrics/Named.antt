-- ===== src/Mesh/Metrics/Named.antt =====
-- Which names of statistics parseUpstreamDelay of internal/mesh/metrics/server.go reads, and the
-- cluster that it takes from them.
use polaris_sidecar.Mesh.Metrics.Delays.{
  after_dot, cluster_of, cluster_prefix, matches_cluster, no_newline, time_suffix,
}
use polaris_sidecar.Mesh.Options.{has_prefix}
use polaris_sidecar.Prelude.{
  Bool, Bool-cases, [], ap, arith, drop, false, inl, inr, is_empty, length, length-append, ltb,
  none, of_some, refl, some, subst, sym, take-length_append, true, ◌++◌, ◌↔◌, ◌∙◌, ◌∷◌, ◌≡◌, ◌≢◌,
}
use polaris_sidecar.Prelude.Text.{
  Lacks, Str, codes, cut_end, cut_end-append, has_suffix-append, has_suffix_split,
  last_index-append,
}

has_prefix_split : (s p : Str) → has_prefix s p ≡ true → s ≡ p ++ drop (length p) s
unfolding has_prefix
has_prefix_split s [] h = refl
has_prefix_split [] (c ∷ p) h = cc
has_prefix_split (d ∷ s) (c ∷ p) h =
    ap (λ t. t ∷ s) (ground arith) ∙ ap (λ t. c ∷ t) (has_prefix_split s p (ground arith))

has_prefix-append : (p s : Str) → has_prefix (p ++ s) p ≡ true
unfolding has_prefix
has_prefix-append [] [] = refl
has_prefix-append [] (c ∷ s) = refl
has_prefix-append (c ∷ p) s = ground (arith, has_prefix-append p s)

-- A statistic of the cluster `m`.
abbrev pub stat_name : Str → Str
stat_name m = cluster_prefix ++ (m ++ time_suffix)

abbrev pub IsCluster : Str → Type 0
IsCluster m = (is_empty m ≡ false) × (no_newline m ≡ true)

suffix-Lacks : Lacks b'.' (codes "upstream_rq_time")
suffix-Lacks = ground arith

longer :
    (m : Str) → is_empty m ≡ false → ltb (length time_suffix) (length (m ++ time_suffix)) ≡ true
longer [] h = cc
longer (c ∷ m) h = ground (arith, length-append m time_suffix)

matches-stat_name : (m : Str) → IsCluster m → matches_cluster (stat_name m) ≡ true
unfolding matches_cluster
matches-stat_name m (e, n) = ground (
  arith,
  has_prefix-append cluster_prefix (m ++ time_suffix),
  has_suffix-append m time_suffix,
  longer m e,
  n,
  ap no_newline (cut_end-append m time_suffix),
)

cluster_of-stat_name : (m : Str) → IsCluster m → cluster_of (stat_name m) ≡ some m
unfolding cluster_of after_dot
cluster_of-stat_name m v =
    let i = last_index-append b'.' m (codes "upstream_rq_time") suffix-Lacks in
    rw (matches-stat_name m v, i, take-length_append m time_suffix, cluster_of) refl

true_ne_false : (b : Bool) → b ≡ true → b ≢ false
true_ne_false b h g = cc

not_empty :
    (m r : Str)
    → m ++ time_suffix ≡ r
    → ltb (length time_suffix) (length r) ≡ true
    → is_empty m ≡ false
not_empty [] r e h =
    absurd (true_ne_false _ h (ap (λ t. ltb (length time_suffix) (length t)) (sym e)))
not_empty (c ∷ m) r e h = refl

matches_split : (s : Str) → matches_cluster s ≡ true → (m : Str) × IsCluster m × (s ≡ stat_name m)
unfolding matches_cluster
matches_split s h =
    let r = drop (length cluster_prefix) s in
    let m = cut_end r time_suffix in
    let split = has_suffix_split r time_suffix (ground arith) in
    (
      m,
      (not_empty m r split (ground arith), ground arith),
      has_prefix_split s cluster_prefix (ground arith) ∙ ap (λ t. cluster_prefix ++ t) (sym split),
    )

none_ne_some : (m : Str) → none ≢ some m
none_ne_some m h = cc

unmatched : (s : Str) → matches_cluster s ≡ false → cluster_of s ≡ none
unfolding cluster_of
unmatched s h = rw (h, cluster_of) refl

-- The cluster `m` is taken from a name exactly if the name is `cluster.m.upstream_rq_time`, where `m`
-- is not empty and has no newline; no other name is read.
pub cluster_of_lem : (s m : Str) → (cluster_of s ≡ some m) ↔ ((s ≡ stat_name m) × IsCluster m)
cluster_of_lem s m = elim (Bool-cases (matches_cluster s)) [
  | inl h ↦
      let (n, v, e) = matches_split s h in
      let f : cluster_of s ≡ some n = ap cluster_of e ∙ cluster_of-stat_name n v in
      (
        (λ k.
            let same = of_some n m (sym f ∙ k) in (e ∙ ap stat_name same, subst IsCluster same v)),
        λ (g, w). ap cluster_of g ∙ cluster_of-stat_name m w,
      )
  | inr h ↦ (
    (λ k. absurd (none_ne_some m (sym (unmatched s h) ∙ k))),
    λ (g, w). ap cluster_of g ∙ cluster_of-stat_name m w,
  )
]
