-- ===== src/Qname.antt =====
-- pkg/utils/util.go: query names and the service keys that they name.
pub mod Suffix
pub mod Parse
use polaris_sidecar.Prelude.{
  Bool, Option, [], drop, false, if◌then◌else◌, is_empty, none, not, some, take, true, ◌++◌, ◌+◌,
  ◌∷◌,
}
use polaris_sidecar.Prelude.Text.{Str, codes, cut_end, has_suffix, last_index, str_eq, to_lower}

-- `model.ServiceKey`
pub record ServiceKey : Type 0 where
  pub namespace : Str
  pub service : Str

abbrev pub dot : Str
dot = b'.' ∷ []

-- constants.SysNamespace
abbrev pub sys_namespace : Str
sys_namespace = codes "polaris"

unfoldable pub add_quota : Str → Str
add_quota qname = if not (has_suffix qname dot) then qname ++ dot else qname

unfoldable pub remove_quota : Str → Str
remove_quota qname = if has_suffix qname dot then cut_end qname dot else qname

unfoldable pub match_suffix : Str → Str → Str × Bool
match_suffix qname suffix =
    if is_empty suffix
    then (qname, true)
    else (let q = add_quota qname in
        let s = add_quota suffix in
        if not (has_suffix q s) then (q, false) else (cut_end q s, true))

-- The namespace that a label stands for; `server_namespace` is polaris-go's `ServerNamespace`.
unfoldable pub resolve_namespace : Str → Str → Str
resolve_namespace server_namespace namespace =
    if str_eq (to_lower namespace) sys_namespace then server_namespace else namespace

-- The part of `ParseQname` behind the suffix test.
unfoldable pub split_name : Str → Str → Str → ServiceKey
split_name server_namespace current_ns qname = elim (last_index b'.' qname) [
  | none ↦ record { namespace = current_ns; service = qname }
  | some i ↦ record {
    namespace = resolve_namespace server_namespace (drop (i + 1) qname);
    service = take i qname;
  }
]

unfoldable pub parse_qname : Str → Str → Str → Str → Option ServiceKey
parse_qname server_namespace qname suffix current_ns =
    let (q, matched) = match_suffix qname suffix in
    if not matched then none else some (split_name server_namespace current_ns (remove_quota q))
