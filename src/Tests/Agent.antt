-- ===== src/Tests/Agent.antt =====
-- The resolver that asks Polaris: internal/resolver/dnsagent.
use polaris_sidecar.Prelude.{List, Option, [], done, none, refl, some, ℕ, ◌↔◌, ◌∷◌, ◌≡◌, ◌⊎◌}
use polaris_sidecar.Prelude.Int.{pos}
use polaris_sidecar.Prelude.Text.{Str, codes, split, str_eq}
use polaris_sidecar.Qname.{ServiceKey, dot, parse_qname}
use polaris_sidecar.Resolver.Dns.{Addr, Question, type_a}
use polaris_sidecar.Resolver.Dns.Simple.{simple_lib}
use polaris_sidecar.Resolver.DnsAgent.{
  Instance, InstanceRequest, ResolverDiscovery, scan_labels, serve_dns,
}
use polaris_sidecar.Resolver.DnsAgent.Answers.{request, serve_dns-none}

abbrev server_namespace : Str
server_namespace = codes "Polaris"

abbrev sample_resolver : ResolverDiscovery
sample_resolver = record {
  suffix = dot;
  dns_ttl = pos 10;
  route_labels_map = (codes "env", codes "test") ∷ [];
  namespace = codes "default";
}

abbrev key : ServiceKey
key = record { namespace = codes "default"; service = codes "shop" }

abbrev sample_instance : Instance
sample_instance = record {
  host = codes "AB";
  port = 8080;
  priority = 1;
  weight = pos 100;
  service_key = key;
}

-- A host is its own address, and Polaris knows one instance of every service.
abbrev parse_ip : Str → Addr
parse_ip s = s

abbrev get_one_instance : InstanceRequest → Option (List Instance)
get_one_instance request = some (sample_instance ∷ [])

abbrev no_instance : InstanceRequest → Option (List Instance)
no_instance request = some []

abbrev ask : Str → ℕ → Question
ask qname t = record { name = qname; qtype = t; qclass = 1 }

no_label : scan_labels none (simple_lib.split_domain_name (codes "shop.default.")) ≡ none
unfolding scan_labels simple_lib split str_eq
no_label = refl

serve_dns-none_example :
    (serve_dns simple_lib sample_resolver server_namespace parse_ip no_instance
        (ask (codes "shop.default.") type_a)
        (codes "shop.default.")
      ≡ done none)
    ↔ ((parse_qname server_namespace (codes "shop.default.") dot (codes "default") ≡ none)
        ⊎ ((key : ServiceKey) × (parse_qname server_namespace
                (codes "shop.default.")
                dot
                (codes "default")
              ≡ some key)
            × ((no_instance
                    (request simple_lib sample_resolver server_namespace parse_ip no_instance key)
                  ≡ none)
                ⊎ (no_instance
                      (request simple_lib sample_resolver server_namespace parse_ip no_instance key)
                    ≡ some []))))
serve_dns-none_example =
    serve_dns-none simple_lib sample_resolver server_namespace parse_ip no_instance
      (ask (codes "shop.default.") type_a) (codes "shop.default.") no_label
