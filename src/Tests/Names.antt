-- ===== src/Tests/Names.antt =====
-- Query names and labels: pkg/utils.
use polaris_sidecar.Labels.{parse_labels}
use polaris_sidecar.Labels.RoundTrip.{parse_labels-print, print_labels, store_all}
use polaris_sidecar.Prelude.{List, [], arith, refl, some, true, ◌++◌, ◌∷◌, ◌≡◌, ◌≢◌, ◌⊎◌}
use polaris_sidecar.Prelude.Assoc.{insert}
use polaris_sidecar.Prelude.Text.{Str, codes, has_suffix, last_index, split, str_eq, to_lower}
use polaris_sidecar.Qname.{
  add_quota, dot, match_suffix, parse_qname, remove_quota, resolve_namespace, split_name,
}
use polaris_sidecar.Qname.Parse.{parse_qname-qualified}

abbrev server_namespace : Str
server_namespace = codes "Polaris"

abbrev suffix : Str
suffix = codes "svc.cluster.local"

-- The cases of util_test.go.
parse_qname_other_suffix :
    parse_qname server_namespace
      (codes "service.ns.svc.cluster.local")
      (codes "cluster.local")
      (codes "default")
    ≡ some (record { namespace = codes "svc"; service = codes "service.ns" })
unfolding parse_qname match_suffix add_quota remove_quota has_suffix str_eq split_name last_index
    resolve_namespace to_lower
parse_qname_other_suffix = refl

parse_qname_polaris :
    parse_qname server_namespace
      (codes "service.polaris.svc.cluster.local")
      suffix
      (codes "default")
    ≡ some (record { namespace = server_namespace; service = codes "service" })
unfolding parse_qname match_suffix add_quota remove_quota has_suffix str_eq split_name last_index
    resolve_namespace to_lower
parse_qname_polaris = refl

parse_qname-qualified_example :
    let r =
      parse_qname server_namespace
        (((codes "a.b" ++ b'.' ∷ codes "Polaris") ++ dot) ++ add_quota suffix)
        suffix
        (codes "default") in
    ((to_lower (codes "Polaris") ≡ codes "polaris")
      × (r ≡ some (record { namespace = server_namespace; service = codes "a.b" })))
    ⊎ ((to_lower (codes "Polaris") ≢ codes "polaris")
        × (r ≡ some (record { namespace = codes "Polaris"; service = codes "a.b" })))
parse_qname-qualified_example =
    parse_qname-qualified server_namespace (codes "a.b") (codes "Polaris") suffix (codes "default")
      true refl refl (omega arith)

abbrev two_labels : List (Str × Str)
two_labels = (codes "env", codes "test") ∷ (codes "set", codes "1") ∷ []

parse_labels-print_example :
    parse_labels (print_labels (codes "env", codes "test") ((codes "set", codes "1") ∷ []))
    ≡ some (store_all two_labels [])
parse_labels-print_example =
    parse_labels-print (codes "env", codes "test") ((codes "set", codes "1") ∷ []) (omega arith)

parse_labels_odd :
    parse_labels (codes "a:1:2,,b,c:3")
    ≡ some ((codes "a", codes "1") ∷ (codes "c", codes "3") ∷ [])
unfolding parse_labels split insert str_eq
parse_labels_odd = refl
