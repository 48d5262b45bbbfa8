-- ===== src/Resolver/DnsAgent/Addresses.antt =====
-- Queries for `<hex>._addr.<service>.<namespace>`: the targets of the SRV records, which the
-- resolver of internal/resolver/dnsagent/plugin.go answers with no lookup.
use polaris_sidecar.Prelude.{
  List, Option, Outcome, [], ap, append_assoc, arith, done, false, inl, inr, is_empty, none, panic,
  refl, some, ◌++◌, ◌↔◌, ◌∙◌, ◌∷◌, ◌≡◌, ◌≢◌,
}
use polaris_sidecar.Prelude.Text.{Str, codes, str_eq, str_eq_iff, str_eq_refl}
use polaris_sidecar.Qname.{ServiceKey}
use polaris_sidecar.Resolver.Dns.{
  Addr, DnsLib, Msg, NameLaws, Question, StartsLabel, empty_msg, type_srv,
}
use polaris_sidecar.Resolver.DnsAgent.{
  Instance, InstanceRequest, ResolverDiscovery, addr_label, encode_ip_as_fqdn, mark_record,
  scan_labels, serve_address, serve_dns,
}
use polaris_sidecar.Resolver.Hex.{
  IsBytes, decode-encode, encode-Lacks, encode-ne-underscore, encode_to_string, is_empty-encode,
}

StartsLabel-append : (s t : Str) → StartsLabel s → StartsLabel (s ++ t)
StartsLabel-append [] t h = absurd h
StartsLabel-append (c ∷ s) t h = h

scan_at_addr :
    (p : Str) (ls : List Str)
    → str_eq p addr_label ≡ false
    → scan_labels none (p ∷ addr_label ∷ ls) ≡ some (some p)
unfolding scan_labels
scan_at_addr p ls h = rw (h, scan_labels, str_eq_refl addr_label)

scan_later : (l : Str) (ls : List Str) → scan_labels (some l) ls ≢ some none
unfolding scan_labels
scan_later l [] h = cc
scan_later l (m ∷ ls) h = ground (arith, scan_later m ls)

-- The loop finds nothing before `_addr` exactly if this is the first label.
scan_labels-panic :
    (ls : List Str)
    → (scan_labels none ls ≡ some none) ↔ ((rest : List Str) × (ls ≡ addr_label ∷ rest))
unfolding scan_labels
scan_labels-panic [] = ((λ e. cc), λ (rest, e). cc)
scan_labels-panic (l ∷ ls) = (
  (λ e. (ls, ground (arith, str_eq_iff l addr_label, scan_later l ls))),
  λ (rest, e). ground (arith, str_eq_iff l addr_label),
)

module _ (lib : DnsLib) (laws : NameLaws lib) (r : ResolverDiscovery) where
  split_hex :
      (ip : Addr) (s : Str)
      → IsBytes ip
      → is_empty ip ≡ false
      → StartsLabel s
      → lib.split_domain_name (encode_to_string ip ++ b'.' ∷ (addr_label ++ b'.' ∷ s))
        ≡ encode_to_string ip ∷ addr_label ∷ lib.split_domain_name s
  split_hex ip s h ne k =
      laws.split_label (encode_to_string ip) (addr_label ++ b'.' ∷ s) (is_empty-encode ip ∙ ne)
        (encode-Lacks b'.' ip h (inl (omega arith))) (encode-Lacks 92 ip h (inr (omega arith)))
        (λ e. omega arith)
      ∙ ap (λ t. encode_to_string ip ∷ t)
          (laws.split_label addr_label s refl (omega arith) (omega arith) k)

  scan_hex :
      (ip : Addr) (s : Str)
      → IsBytes ip
      → is_empty ip ≡ false
      → StartsLabel s
      → scan_labels none
          (lib.split_domain_name (encode_to_string ip ++ b'.' ∷ (addr_label ++ b'.' ∷ s)))
        ≡ some (some (encode_to_string ip))
  scan_hex ip s h ne k =
      ap (scan_labels none) (split_hex ip s h ne k)
      ∙ scan_at_addr _ _ (encode-ne-underscore ip (codes "addr") h)

  scan_encoded :
      (ip : Addr) (key : ServiceKey)
      → IsBytes ip
      → is_empty ip ≡ false
      → StartsLabel key.service
      → scan_labels none (lib.split_domain_name (encode_ip_as_fqdn lib ip key))
        ≡ some (some (encode_to_string ip))
  unfolding encode_ip_as_fqdn
  scan_encoded ip key h ne k =
      let rest = key.service ++ b'.' ∷ key.namespace in
      let name = encode_to_string ip ++ b'.' ∷ (addr_label ++ b'.' ∷ rest) in
      let starts = StartsLabel-append key.service (b'.' ∷ key.namespace) k in
      let scan = λ (t : Str). scan_labels none (lib.split_domain_name t) in
      elim (laws.fqdn_lem name) [
        | inl e ↦ ap scan e ∙ scan_hex ip rest h ne starts
        | inr e ↦
            ap scan (e ∙ append_assoc (encode_to_string ip) _ (b'.' ∷ []))
            ∙ scan_hex ip (rest ++ b'.' ∷ []) h ne (StartsLabel-append rest _ starts)
      ]

  module _ (server_namespace : Str) (parse_ip : Str → Addr)
      (get_one_instance : InstanceRequest → Option (List Instance)) where
    abbrev serve : Question → Str → Outcome (Option Msg)
    serve = serve_dns lib r server_namespace parse_ip get_one_instance

    serve_encoded :
        (ip : Addr) (key : ServiceKey) (question : Question)
        → IsBytes ip
        → is_empty ip ≡ false
        → StartsLabel key.service
        → serve question (encode_ip_as_fqdn lib ip key)
          ≡ done (some (record empty_msg { answer = mark_record lib r question ip none ∷ [] }))
    unfolding serve_dns serve_address
    serve_encoded ip key question h ne k =
        rw (scan_encoded ip key h ne k, serve_dns, serve_address, decode-encode ip h)

    -- The name that an SRV record has as its target, asked for by an SRV question itself, gives a
    -- reply whose one record is nil.
    pub serve_dns-nil_record :
        (question : Question) (ip : Addr) (key : ServiceKey)
        → question.qtype ≡ type_srv
        → IsBytes ip
        → is_empty ip ≡ false
        → StartsLabel key.service
        → serve question (encode_ip_as_fqdn lib ip key)
          ≡ done (some (record empty_msg { answer = none ∷ [] }))
    unfolding mark_record
    serve_dns-nil_record question ip key e h ne k = serve_encoded ip key question h ne k ∙ rw e

    -- The resolver panics exactly on the names whose first label is `_addr`.
    pub serve_dns-panic :
        (question : Question) (qname : Str)
        → (serve question qname ≡ panic)
          ↔ ((rest : List Str) × (lib.split_domain_name qname ≡ addr_label ∷ rest))
    unfolding serve_dns serve_address
    serve_dns-panic question qname =
        let (found, panics) = scan_labels-panic (lib.split_domain_name qname) in
        ((λ e. found (ground arith)), λ h. rw (panics h, serve_dns))
