-- ===== src/Resolver/MeshProxy/Table.antt =====
-- The lookup table of internal/resolver/meshproxy/dns.go and what it answers.
use polaris_sidecar.Prelude.{
  Bool-cases, List, Option, [], arith, false, if◌then◌else◌, inl, inr, refl, some, true, ℕ, ◌++◌,
  ◌==◌, ◌||◌, ◌∙◌, ◌∷◌, ◌≡◌,
}
use polaris_sidecar.Prelude.Assoc.{lookup, lookup-insert}
use polaris_sidecar.Prelude.Sets.{member, member-add}
use polaris_sidecar.Prelude.Text.{Str, to_lower}
use polaris_sidecar.Qname.{dot}
use polaris_sidecar.Resolver.Dns.{Addr, Rr, a_record, class_inet, type_a}
use polaris_sidecar.Resolver.MeshProxy.{
  LocalDnsServer, LookupTable, add_services, build_dns_answers, empty_table, lookup_host,
  update_lookup_table,
}

-- The hosts of a list of services, as they are looked up.
unfoldable pub hosts : List Str → List Str
hosts [] = []
hosts (service ∷ services) = to_lower (service ++ dot) ∷ hosts services

-- What a host of the table is answered with: the one address for A, nothing for the rest.
abbrev pub expected : ℕ → Str → Addr → ℕ → List (Option Rr)
expected qtype question_host ip ttl =
    if qtype == type_a
    then (some (
          a_record (record { name = question_host; rrtype = type_a; class = class_inet; ttl = ttl })
            ip)
        ∷ [])
    else []

-- What is kept while services are added: every host has the one IPv4 address and no other.
pub record IsUniform (ip : Addr) (ttl : ℕ) (table : LookupTable) : Type 0 where
  pub at_host : (h : Str) → member h table.all_hosts ≡ true → lookup h table.name4 ≡ some (ip ∷ [])
  pub no_name6 : table.name6 ≡ []
  pub ttl_kept : table.dns_ttl ≡ ttl

empty-IsUniform : (ip : Addr) (ttl : ℕ) → IsUniform ip ttl (empty_table ttl)
unfolding empty_table member
empty-IsUniform ip ttl = record { at_host = λ h e. cc; no_name6 = refl; ttl_kept = refl }

add_service : LookupTable → Str → Addr → LookupTable
unfolding build_dns_answers
add_service table service ip = build_dns_answers table ((service ++ dot) ∷ []) (ip ∷ []) []

add_service-IsUniform :
    (ip : Addr) (ttl : ℕ) (table : LookupTable) (service : Str)
    → IsUniform ip ttl table
    → IsUniform ip ttl (add_service table service ip)
unfolding add_service
add_service-IsUniform ip ttl table service u = record {
  at_host = λ h e.
      let host = to_lower (service ++ dot) in
      ground (
        arith,
        member-add host h table.all_hosts,
        lookup-insert host h (ip ∷ []) table.name4,
        u.at_host h,
      );
  no_name6 = u.no_name6;
  ttl_kept = u.ttl_kept;
}

add_services-IsUniform :
    (ip : Addr) (ttl : ℕ) (table : LookupTable) (services : List Str)
    → IsUniform ip ttl table
    → IsUniform ip ttl (add_services table services ip)
unfolding add_services add_service
add_services-IsUniform ip ttl table [] u = u
add_services-IsUniform ip ttl table (service ∷ services) u =
    add_services-IsUniform ip ttl (add_service table service ip) services
      (add_service-IsUniform ip ttl table service u)

member-add_services :
    (ip : Addr) (h : Str) (table : LookupTable) (services : List Str)
    → member h (add_services table services ip).all_hosts
      ≡ (member h (hosts services) || member h table.all_hosts)
unfolding add_services add_service hosts member
member-add_services ip h table [] = refl
member-add_services ip h table (service ∷ services) = ground (
  arith,
  member-add_services ip h (add_service table service ip) services,
  member-add (to_lower (service ++ dot)) h table.all_hosts,
)

lookup-IsUniform :
    (ip : Addr) (ttl : ℕ) (table : LookupTable) (qtype : ℕ) (question_host h : Str)
    → IsUniform ip ttl table
    → member h table.all_hosts ≡ true
    → lookup_host table qtype question_host h ≡ (expected qtype question_host ip ttl, true)
unfolding lookup_host lookup
lookup-IsUniform ip ttl table qtype question_host h u e =
    rw (e, u.at_host h e, u.no_name6, u.ttl_kept) (ground arith)

lookup-absent :
    (table : LookupTable) (qtype : ℕ) (question_host h : Str)
    → member h table.all_hosts ≡ false
    → lookup_host table qtype question_host h ≡ ([], false)
unfolding lookup_host
lookup-absent table qtype question_host h e = rw e

member-table :
    (ip : Addr) (h : Str) (ttl : ℕ) (services : List Str)
    → member h (add_services (empty_table ttl) services ip).all_hosts ≡ member h (hosts services)
unfolding empty_table member
member-table ip h ttl services = ground (arith, member-add_services ip h (empty_table ttl) services)

-- The table made of a list of services finds exactly the lower-case names `<service>.` of these.
-- A host that it finds has the answer address as its one A record, under the name asked for and
-- with the time to live of the server, and no record of any other type.
pub lookup_host-update :
    (server : LocalDnsServer) (services : List Str) (ip : Addr) (qtype : ℕ)
    (question_host hostname : Str)
    → (table : LookupTable) × ((update_lookup_table server services ip).lookup_table ≡ some table)
      × (lookup_host table qtype question_host hostname ≡ (
          if member hostname (hosts services)
          then (expected qtype question_host ip server.dns_ttl, true)
          else ([], false)))
unfolding update_lookup_table
lookup_host-update server services ip qtype question_host hostname =
    let table = add_services (empty_table server.dns_ttl) services ip in
    let u =
      add_services-IsUniform ip server.dns_ttl _ services (empty-IsUniform ip server.dns_ttl) in
    (
      table,
      refl,
      elim (Bool-cases (member hostname (hosts services))) [
        | inl e ↦ rw e (
            lookup-IsUniform ip server.dns_ttl table qtype question_host hostname u
              (member-table ip hostname server.dns_ttl services ∙ e))
        | inr e ↦ rw e (
            lookup-absent table qtype question_host hostname
              (member-table ip hostname server.dns_ttl services ∙ e))
      ],
    )
