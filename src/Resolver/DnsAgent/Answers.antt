-- ===== src/Resolver/DnsAgent/Answers.antt =====
-- The answers of the resolver of internal/resolver/dnsagent/plugin.go for the name of a service.
use polaris_sidecar.Prelude.{
  List, Option, Option-cases, Outcome, [], ap, arith, done, if◌then◌else◌, inl, inr, is_empty, none,
  refl, some, ◌%◌, ◌↔◌, ◌∷◌, ◌≡◌, ◌⊎◌,
}
use polaris_sidecar.Prelude.Int.{to_u16}
use polaris_sidecar.Prelude.Text.{Str}
use polaris_sidecar.Qname.{ServiceKey, parse_qname}
use polaris_sidecar.Resolver.Dns.{
  Addr, DnsLib, Msg, Question, Rr, a_record, aaaa_record, srv_record, type_a, type_aaaa, type_srv,
}
use polaris_sidecar.Resolver.DnsAgent.{
  Instance, InstanceRequest, ResolverDiscovery, encode_ip_as_fqdn, lookup_from_polaris, mark_header,
  scan_labels, serve_dns, serve_instances,
}

module _ (lib : DnsLib) (r : ResolverDiscovery) (server_namespace : Str) (parse_ip : Str → Addr)
    (get_one_instance : InstanceRequest → Option (List Instance)) where
  abbrev serve : Question → Str → Outcome (Option Msg)
  serve = serve_dns lib r server_namespace parse_ip get_one_instance

  -- What Polaris is asked for a service.
  abbrev pub request : ServiceKey → InstanceRequest
  request key = record {
    namespace = key.namespace;
    service = key.service;
    source_metadata = if is_empty r.route_labels_map then none else some r.route_labels_map;
  }

  -- The record of an instance, for each type of question.
  abbrev IsRecord : Question → Instance → Option Rr → Type 0
  IsRecord question ins rr =
      (question.qtype ≡ type_a
        → rr ≡ some (a_record (mark_header lib r question type_a) (parse_ip ins.host)))
      × (question.qtype ≡ type_aaaa
          → rr ≡ some (aaaa_record (mark_header lib r question type_aaaa) (parse_ip ins.host)))
      × (question.qtype ≡ type_srv
          → rr
            ≡ some (
                srv_record (mark_header lib r question type_srv) (ins.priority % 65536)
                  (to_u16 ins.weight) (ins.port % 65536)
                  (encode_ip_as_fqdn lib (parse_ip ins.host) ins.service_key)))

  -- One record for each instance, in order.
  abbrev pub AreRecords : Question → List Instance → List (Option Rr) → Type 0
  AreRecords question [] [] = Unit
  AreRecords question [] (rr ∷ rrs) = ⊥
  AreRecords question (ins ∷ rest) [] = ⊥
  AreRecords question (ins ∷ rest) (rr ∷ rrs) =
      IsRecord question ins rr × AreRecords question rest rrs

  serve_instances-none :
      (question : Question) (found : Option (List Instance))
      → (serve_instances lib r server_namespace parse_ip get_one_instance question found ≡ none)
        ↔ ((found ≡ none) ⊎ (found ≡ some []))
  unfolding serve_instances
  serve_instances-none question none = ((λ e. inl refl), λ e. refl)
  serve_instances-none question (some []) = ((λ e. inr refl), λ e. refl)
  serve_instances-none question (some (ins ∷ rest)) = ((λ e. cc), λ e. ground arith)

  serve_dns-scanned :
      (question : Question) (qname : Str) (found : Option (List Instance))
      → scan_labels none (lib.split_domain_name qname) ≡ none
      → lookup_from_polaris lib r server_namespace parse_ip get_one_instance qname r.namespace
        ≡ found
      → (serve question qname ≡ done none) ↔ ((found ≡ none) ⊎ (found ≡ some []))
  unfolding serve_dns
  serve_dns-scanned question qname found s e =
      rw (s, serve_dns, e)
        (
          (λ h. (serve_instances-none question found).0 (ground arith)),
          λ h. ap done ((serve_instances-none question found).1 h),
        )

  -- A name with no label `_addr` is left to the next resolver exactly if it stands for no
  -- service, or Polaris fails, or it gives no instance.
  pub serve_dns-none :
      (question : Question) (qname : Str)
      → scan_labels none (lib.split_domain_name qname) ≡ none
      → (serve question qname ≡ done none) ↔ (
          (parse_qname server_namespace qname r.suffix r.namespace ≡ none)
          ⊎ ((key : ServiceKey) × (parse_qname server_namespace qname r.suffix r.namespace
                ≡ some key)
              × ((get_one_instance (request key) ≡ none)
                  ⊎ (get_one_instance (request key) ≡ some []))))
  unfolding lookup_from_polaris
  serve_dns-none question qname s =
      elim (Option-cases (parse_qname server_namespace qname r.suffix r.namespace)) [
        | inl e ↦
            let both = serve_dns-scanned question qname (some []) s (rw (e, lookup_from_polaris)) in
            ((λ h. inl e), λ h. both.1 (inr refl))
        | inr (key, e) ↦
            let both =
              serve_dns-scanned question qname (get_one_instance (request key)) s
                (rw (e, lookup_from_polaris)) in
            ((λ h. inr (key, e, both.0 h)), λ h. both.1 (ground arith))
      ]
