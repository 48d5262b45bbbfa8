-- ===== src/Resolver/MeshProxy.antt =====
-- internal/resolver/meshproxy: the resolver that answers the names of all services of the mesh
-- with one address, from a table that it reloads.
pub mod Table
pub mod Serve
pub mod Reload
use polaris_sidecar.Prelude.{
  Bool, List, Option, [], false, if◌then◌else◌, is_empty, length, none, not, some, true, ℕ, ◌++◌,
  ◌==◌, ◌||◌, ◌∷◌,
}
use polaris_sidecar.Prelude.Assoc.{Assoc, insert, lookup}
use polaris_sidecar.Prelude.Int.{to_u32, ℤ}
use polaris_sidecar.Prelude.Sets.{add, member}
use polaris_sidecar.Prelude.Text.{Str, to_lower}
use polaris_sidecar.Qname.{ServiceKey, dot, match_suffix, remove_quota}
use polaris_sidecar.Resolver.Dns.{
  Addr, Msg, Question, Rr, a_record, aaaa_record, class_inet, empty_msg, rcode_success, type_a,
  type_aaaa,
}
use polaris_sidecar.Resolver.Plugin.{ConfigEntry}

pub record LookupTable : Type 0 where
  pub all_hosts : List Str
  pub name4 : Assoc (List Addr)
  pub name6 : Assoc (List Addr)
  pub dns_ttl : ℕ

-- A nil table is `none`.
pub record LocalDnsServer : Type 0 where
  pub lookup_table : Option LookupTable
  pub dns_ttl : ℕ
  pub recursion_available : Bool

put_answers : Str → List Addr → Assoc (List Addr) → Assoc (List Addr)
put_answers h ips names = if is_empty ips then names else insert h ips names

unfoldable pub build_dns_answers : LookupTable → List Str → List Addr → List Addr → LookupTable
unfolding put_answers
build_dns_answers table [] ipv4 ipv6 = table
build_dns_answers table (host ∷ hosts) ipv4 ipv6 =
    let h = to_lower host in
    build_dns_answers
      (record table {
        all_hosts = add h table.all_hosts;
        name4 = put_answers h ipv4 table.name4;
        name6 = put_answers h ipv6 table.name6;
      })
      hosts ipv4 ipv6

unfoldable pub add_services : LookupTable → List Str → Addr → LookupTable
unfolding build_dns_answers
add_services table [] ip = table
add_services table (service ∷ services) ip =
    add_services (build_dns_answers table ((service ++ dot) ∷ []) (ip ∷ []) []) services ip

unfoldable pub empty_table : ℕ → LookupTable
empty_table ttl = record { all_hosts = []; name4 = []; name6 = []; dns_ttl = ttl }

-- `UpdateLookupTable`; `ip` is the parsed answer address.
unfoldable pub update_lookup_table : LocalDnsServer → List Str → Addr → LocalDnsServer
unfolding add_services empty_table
update_lookup_table h services ip = record h {
  lookup_table = some (add_services (empty_table h.dns_ttl) services ip);
}

-- `a` and `aaaa`
unfoldable pub a_answers : Str → List Addr → ℕ → List (Option Rr)
a_answers host [] ttl = []
a_answers host (ip ∷ ips) ttl =
    some (a_record (record { name = host; rrtype = type_a; class = class_inet; ttl = ttl }) ip)
    ∷ a_answers host ips ttl

unfoldable pub aaaa_answers : Str → List Addr → ℕ → List (Option Rr)
aaaa_answers host [] ttl = []
aaaa_answers host (ip ∷ ips) ttl =
    some
      (aaaa_record (record { name = host; rrtype = type_aaaa; class = class_inet; ttl = ttl }) ip)
    ∷ aaaa_answers host ips ttl

-- A missing key of a map of slices reads as the nil slice.
abbrev pub or_nil : Option (List Addr) → List Addr
or_nil none = []
or_nil (some ips) = ips

unfoldable pub lookup_host : LookupTable → ℕ → Str → Str → List (Option Rr) × Bool
unfolding a_answers aaaa_answers
lookup_host table qtype question_host hostname =
    if not (member hostname table.all_hosts)
    then ([], false)
    else if qtype == type_a
    then (a_answers question_host (or_nil (lookup hostname table.name4)) table.dns_ttl, true)
    else if qtype == type_aaaa
    then (aaaa_answers question_host (or_nil (lookup hostname table.name6)) table.dns_ttl, true)
    else ([], true)

unfoldable pub new_local_dns_server : ℕ → Bool → LocalDnsServer
new_local_dns_server ttl recursion_available = record {
  lookup_table = none;
  dns_ttl = ttl;
  recursion_available = recursion_available;
}

-- `ServeDNS` of the local server, behind the test of a nil table.
unfoldable pub serve_table : LookupTable → Question → Str → Option Msg
unfolding empty_msg
serve_table table question qname =
    let (answers, found) = lookup_host table question.qtype question.name (to_lower qname) in
    if found then some (record empty_msg { answer = answers; rcode = rcode_success }) else none

unfoldable pub serve_local : LocalDnsServer → Question → Str → Option Msg
unfolding serve_table
serve_local h question qname = elim h.lookup_table [
  | none ↦ none
  | some table ↦ serve_table table question qname
]

-- The `resolverConfig` of the mesh, less `Namespace`, which `Initialize` overwrites.
pub record MeshOptions : Type 0 where
  pub reload_interval_sec : ℤ
  pub dns_answer_ip : Str
  pub filter_by_business : Str
  pub recursion_available : Bool

pub record ResolverMesh : Type 0 where
  pub local_dns_server : LocalDnsServer
  pub options : MeshOptions
  pub namespace : Str
  pub suffix : Str

-- `Initialize` for options that are parsed; `api` tells whether `GetConsumerAPI` succeeds.
unfoldable pub initialize : Bool → ConfigEntry → MeshOptions → Option ResolverMesh
unfolding new_local_dns_server
initialize api c options =
    if not api
    then none
    else some (record {
      local_dns_server = new_local_dns_server (to_u32 c.dns_ttl) options.recursion_available;
      options = options;
      namespace = c.namespace;
      suffix = c.suffix;
    })

-- The name tried second: the namespace of the configuration is put behind it.
unfoldable pub with_namespace : Str → Str → Str
with_namespace qname namespace = ((remove_quota qname ++ dot) ++ namespace) ++ dot

unfoldable pub serve_dns : ResolverMesh → Question → Str → Option Msg
serve_dns r question qname =
    let (rest, matched) = match_suffix qname r.suffix in
    if not matched then none else elim (serve_local r.local_dns_server question qname) [
      | some m ↦ some m
      | none ↦ serve_local r.local_dns_server question (with_namespace qname r.namespace)
    ]

-- registry_proxy.go: the names `<service>.<namespace>` of the services that Polaris lists.
unfoldable pub service_names : List ServiceKey → List Str
service_names [] = []
service_names (svc ∷ svcs) = add (svc.service ++ b'.' ∷ svc.namespace) (service_names svcs)

-- `GetServices` takes the business that is asked for, and fails with `none`. The request with the
-- configured business is built and then left unused.
unfoldable pub get_current_ns_service : (Str → Option (List ServiceKey)) → Str → Option (List Str)
unfolding service_names
get_current_ns_service get_services business = elim (get_services []) [
  | none ↦ none
  | some svcs ↦ some (service_names svcs)
]

unfoldable pub any_missing : List Str → List Str → Bool
any_missing [] new_services = false
any_missing (svc ∷ svcs) new_services =
    not (member svc new_services) || any_missing svcs new_services

unfoldable pub if_service_list_changed : List Str → List Str → Bool
unfolding any_missing
if_service_list_changed current new_services =
    if not (length current == length new_services)
    then true
    else if length current == 0
    then false
    else any_missing current new_services

module _ (parse_ip : Str → Addr) where
  unfoldable pub reload_with : ResolverMesh → List Str → List Str → ResolverMesh × List Str
  reload_with r current services =
      if if_service_list_changed current services
      then (
        record r {
          local_dns_server =
              update_lookup_table r.local_dns_server services (parse_ip r.options.dns_answer_ip);
        },
        services,
      )
      else (r, current)

  unfoldable pub take_over : Option (List Str) → ResolverMesh → List Str → ResolverMesh × List Str
  unfolding reload_with
  take_over none r current = (r, current)
  take_over (some services) r current = reload_with r current services

  -- One round of the loop of `Start`: `doReload`, and the services taken over if they changed.
  unfoldable pub reload :
      (Str → Option (List ServiceKey)) → ResolverMesh → List Str → ResolverMesh × List Str
  unfolding take_over
  reload get_services r current =
      take_over (get_current_ns_service get_services r.options.filter_by_business) r current

  -- The rounds of the loop, each with what Polaris lists then.
  unfoldable pub run :
      List (Str → Option (List ServiceKey)) → ResolverMesh → List Str → ResolverMesh × List Str
  unfolding reload
  run [] r current = (r, current)
  run (get_services ∷ rounds) r current =
      let (r', current') = reload get_services r current in run rounds r' current'
