-- ===== src/Resolver/MeshProxy/Serve.antt =====
-- What the mesh resolver of internal/resolver/meshproxy/plugin.go replies.
use polaris_sidecar.Prelude.{
  Bool, List, Option, [], ap, false, if◌then◌else◌, none, refl, some, sym, true, ℕ, ◌||◌, ◌∙◌, ◌≡◌,
}
use polaris_sidecar.Prelude.Sets.{member}
use polaris_sidecar.Prelude.Text.{Str, has_suffix, to_lower}
use polaris_sidecar.Qname.{dot}
use polaris_sidecar.Resolver.Dns.{Addr, Msg, Question, empty_msg, rcode_success}
use polaris_sidecar.Resolver.MeshProxy.{
  LocalDnsServer, LookupTable, ResolverMesh, lookup_host, serve_local, serve_table,
  update_lookup_table,
}
use polaris_sidecar.Resolver.MeshProxy.Table.{expected, hosts, lookup_host-update}

-- The reply for a host that is known or not.
abbrev pub reply_for : Bool → Question → Addr → ℕ → Option Msg
reply_for true question ip ttl = some (record empty_msg {
  answer = expected question.qtype question.name ip ttl;
  rcode = rcode_success;
})
reply_for false question ip ttl = none

-- The local server knows the hosts of these services, and no other.
pub record Reflects (ip : Addr) (server : LocalDnsServer) (services : List Str) : Type 0 where
  pub at_name :
      (question : Question) (qname : Str)
      → serve_local server question qname
        ≡ reply_for (member (to_lower qname) (hosts services)) question ip server.dns_ttl

found_reply :
    (question : Question) (ip : Addr) (ttl : ℕ) (b : Bool) (table : LookupTable) (qname : Str)
    → lookup_host table question.qtype question.name (to_lower qname)
      ≡ (if b then (expected question.qtype question.name ip ttl, true) else ([], false))
    → serve_table table question qname ≡ reply_for b question ip ttl
unfolding serve_table
found_reply question ip ttl true table qname e = rw (e, serve_table)
found_reply question ip ttl false table qname e = rw (e, serve_table)

serve_local-some :
    (server : LocalDnsServer) (table : LookupTable) (question : Question) (qname : Str)
    → server.lookup_table ≡ some table
    → serve_local server question qname ≡ serve_table table question qname
unfolding serve_local
serve_local-some server table question qname e = rw (e, serve_local)

pub dns_ttl-update :
    (server : LocalDnsServer) (services : List Str) (ip : Addr)
    → (update_lookup_table server services ip).dns_ttl ≡ server.dns_ttl
unfolding update_lookup_table
dns_ttl-update server services ip = refl

-- After an update the local server knows exactly the hosts of the services that it was given.
pub update-Reflects :
    (server : LocalDnsServer) (services : List Str) (ip : Addr)
    → Reflects ip (update_lookup_table server services ip) services
update-Reflects server services ip = record {
  at_name = λ question qname.
      let (table, e, h) =
        lookup_host-update server services ip question.qtype question.name (to_lower qname) in
      serve_local-some _ table question qname e
      ∙ found_reply question ip server.dns_ttl (member (to_lower qname) (hosts services)) table
          qname h
      ∙ ap (reply_for (member (to_lower qname) (hosts services)) question ip)
          (sym (dns_ttl-update server services ip));
}

-- The reply for a name, where the name that is tried second is given in lower case.
abbrev answer_at : ResolverMesh → List Str → Addr → Question → Str → Str → Option Msg
answer_at r services ip question qname second =
    reply_for (member (to_lower qname) (hosts services) || member second (hosts services)) question
      ip r.local_dns_server.dns_ttl

-- A name apart from its final dot, if it has one.
abbrev pub IsStem : Str → Bool → Type 0
IsStem base true = Unit
IsStem base false = has_suffix base dot ≡ false
