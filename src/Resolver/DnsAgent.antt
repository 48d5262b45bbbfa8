-- ===== src/Resolver/DnsAgent.antt =====
-- internal/resolver/dnsagent: the resolver that asks Polaris for the instances of a service.
pub mod Addresses
pub mod Answers
use polaris_sidecar.Labels.{parse_labels}
use polaris_sidecar.Prelude.{
  Bool, List, Option, Outcome, [], done, if◌then◌else◌, is_empty, none, not, panic, some, ℕ, ◌%◌,
  ◌++◌, ◌==◌, ◌∷◌,
}
use polaris_sidecar.Prelude.Assoc.{Assoc, lookup}
use polaris_sidecar.Prelude.Int.{to_u16, to_u32, ℤ}
use polaris_sidecar.Prelude.Text.{Str, codes, str_eq}
use polaris_sidecar.Qname.{ServiceKey, add_quota, parse_qname}
use polaris_sidecar.Resolver.Dns.{
  Addr, DnsLib, Header, Msg, Question, Rr, a_record, aaaa_record, class_inet, empty_msg,
  rcode_success, srv_record, type_a, type_aaaa, type_srv,
}
use polaris_sidecar.Resolver.Hex.{decode_string, encode_to_string}
use polaris_sidecar.Resolver.Plugin.{ConfigEntry, OptionValue, text}

-- What the resolver reads of a `model.Instance`.
pub record Instance : Type 0 where
  pub host : Str
  pub port : ℕ
  pub priority : ℕ
  pub weight : ℤ
  pub service_key : ServiceKey

-- `polaris.GetOneInstanceRequest`; the source service is left out if there are no route labels.
pub record InstanceRequest : Type 0 where
  pub namespace : Str
  pub service : Str
  pub source_metadata : Option (Assoc Str)

-- `resolverDiscovery` with its `resolverConfig`; the labels of a nil map are `[]`.
pub record ResolverDiscovery : Type 0 where
  pub suffix : Str
  pub dns_ttl : ℤ
  pub route_labels_map : Assoc Str
  pub namespace : Str

abbrev pub route_labels_key : Str
route_labels_key = codes "route_labels"

-- A nil map reads as an empty one.
abbrev pub or_empty {ℓ} : {V : Type ℓ} → Option (Assoc V) → Assoc V
or_empty none = []
or_empty (some m) = m

-- `json.Unmarshal` into a string: the field stays empty if the key is missing, and a value that is
-- no string is an error.
route_labels_of : Option OptionValue → Option Str
route_labels_of none = some []
route_labels_of (some (text s)) = some s
route_labels_of (some _) = none

-- The route labels of the parsed options; `none` is an error.
unfoldable pub parse_options : Assoc OptionValue → Option (Assoc Str)
unfolding route_labels_of
parse_options options =
    if is_empty options then some [] else elim (route_labels_of (lookup route_labels_key options)) [
      | none ↦ none
      | some s ↦ some (or_empty (parse_labels s))
    ]

-- `api` tells whether `GetConsumerAPI` succeeds.
unfoldable pub initialize : Bool → ConfigEntry → Option ResolverDiscovery
unfolding parse_options
initialize api c = elim (parse_options (or_empty c.options)) [
  | none ↦ none
  | some labels_map ↦
      if not api
      then none
      else some (record {
        suffix = add_quota c.suffix;
        dns_ttl = c.dns_ttl;
        route_labels_map = labels_map;
        namespace = c.namespace;
      })
]

abbrev pub addr_label : Str
addr_label = codes "_addr"

-- The loop over the labels of a name: nothing if no label is `_addr`, and else what stands before
-- the first of them, if anything does.
unfoldable pub scan_labels : Option Str → List Str → Option (Option Str)
scan_labels before [] = none
scan_labels before (l ∷ ls) = if str_eq l addr_label then some before else scan_labels (some l) ls

module _ (lib : DnsLib) where
  unfoldable pub encode_ip_as_fqdn : Addr → ServiceKey → Str
  encode_ip_as_fqdn ip key =
      lib.fqdn
        (encode_to_string ip ++ b'.' ∷ (addr_label ++ b'.' ∷ (key.service ++ b'.' ∷ key.namespace)))

  module _ (r : ResolverDiscovery) where
    unfoldable pub mark_header : Question → ℕ → Header
    mark_header question rrtype = record {
      name = question.name;
      rrtype = rrtype;
      class = class_inet;
      ttl = to_u32 r.dns_ttl;
    }

    srv_answer : Question → Addr → Option Instance → Option Rr
    unfolding mark_header encode_ip_as_fqdn
    srv_answer question address none = none
    srv_answer question address (some ins) = some (
        srv_record (mark_header question type_srv) (ins.priority % 65536) (to_u16 ins.weight)
          (ins.port % 65536) (encode_ip_as_fqdn address ins.service_key))

    -- A nil record is `none`.
    unfoldable pub mark_record : Question → Addr → Option Instance → Option Rr
    unfolding mark_header srv_answer
    mark_record question address ins =
        if question.qtype == type_a
        then some (a_record (mark_header question type_a) address)
        else if question.qtype == type_srv
        then srv_answer question address ins
        else if question.qtype == type_aaaa
        then some (aaaa_record (mark_header question type_aaaa) address)
        else none

    -- The branch of a label `_addr`.
    unfoldable pub serve_address : Question → Option Str → Outcome (Option Msg)
    unfolding mark_record empty_msg
    serve_address question none = panic
    serve_address question (some digits) = elim (decode_string digits) [
      | none ↦ done none
      | some ip ↦ done (some (record empty_msg { answer = mark_record question ip none ∷ [] }))
    ]

    module _ (server_namespace : Str) (parse_ip : Str → Addr)
        (get_one_instance : InstanceRequest → Option (List Instance)) where
      -- A name that is no service's gives no instance and no error.
      unfoldable pub lookup_from_polaris : Str → Str → Option (List Instance)
      lookup_from_polaris qname current_ns =
          elim (parse_qname server_namespace qname r.suffix current_ns) [
            | none ↦ some []
            | some key ↦ get_one_instance (record {
              namespace = key.namespace;
              service = key.service;
              source_metadata =
                  if is_empty r.route_labels_map then none else some r.route_labels_map;
            })
          ]

      unfoldable pub mark_instances : Question → List Instance → List (Option Rr)
      mark_instances question [] = []
      mark_instances question (ins ∷ rest) =
          mark_record question (parse_ip ins.host) (some ins) ∷ mark_instances question rest

      unfoldable pub serve_instances : Question → Option (List Instance) → Option Msg
      unfolding mark_instances empty_msg
      serve_instances question none = none
      serve_instances question (some []) = none
      serve_instances question (some (ins ∷ rest)) = some (record empty_msg {
        answer = mark_instances question (ins ∷ rest);
        rcode = rcode_success;
      })

      unfoldable pub serve_dns : Question → Str → Outcome (Option Msg)
      serve_dns question qname = elim (scan_labels none (lib.split_domain_name qname)) [
        | some before ↦ serve_address question before
        | none ↦ done (serve_instances question (lookup_from_polaris qname r.namespace))
      ]
