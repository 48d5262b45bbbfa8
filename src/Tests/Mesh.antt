-- ===== src/Tests/Mesh.antt =====
-- The mesh resolver, and the life of the resolvers: internal/resolver/meshproxy and server.go.
use polaris_sidecar.Prelude.{Bool, List, Option, [], false, none, refl, some, true, ◌||◌, ◌∷◌, ◌≡◌}
use polaris_sidecar.Prelude.Assoc.{insert, lookup}
use polaris_sidecar.Prelude.Int.{pos}
use polaris_sidecar.Prelude.Sets.{add, member}
use polaris_sidecar.Prelude.Text.{Str, codes, has_suffix, str_eq, to_lower}
use polaris_sidecar.Qname.{ServiceKey, add_quota, dot, match_suffix, remove_quota}
use polaris_sidecar.Resolver.Dns.{Addr, Question, empty_msg, tcp, udp}
use polaris_sidecar.Resolver.MeshProxy.{
  LocalDnsServer, ResolverMesh, get_current_ns_service, if_service_list_changed, lookup_host,
  reload, run, serve_dns, serve_local, serve_table, update_lookup_table, with_namespace,
}
use polaris_sidecar.Resolver.MeshProxy.Reload.{Listing, last_listed, run-Reflects}
use polaris_sidecar.Resolver.MeshProxy.Serve.{Reflects}
use polaris_sidecar.Resolver.MeshProxy.Table.{expected}
use polaris_sidecar.Resolver.Plugin.{ConfigEntry, plugin_name_dns_agent, plugin_name_mesh_proxy}
use polaris_sidecar.Resolver.Server.{
  ResolverConfig, Server, build_resolvers, destroy_all, err, initialized, make_server, new_server,
  ok, shut_down, unknown_resolver,
}
use polaris_sidecar.Resolver.Server.Lifecycle.{
  ServerEnds, destroy_times, enabled, init_all, new_server-Ends, new_server-destroy,
}

abbrev fresh : ResolverMesh
fresh = record {
  local_dns_server = record { lookup_table = none; dns_ttl = 10; recursion_available = true };
  options = record {
    reload_interval_sec = pos 30;
    dns_answer_ip = codes "10.4.4.4";
    filter_by_business = [];
    recursion_available = true;
  };
  namespace = codes "default";
  suffix = dot;
}

abbrev keep_text : Str → Addr
keep_text s = s

abbrev shop : ServiceKey
shop = record { namespace = codes "default"; service = codes "Shop" }

abbrev shop_only : Str → Option (List ServiceKey)
shop_only business = some (shop ∷ [])

abbrev failing : Str → Option (List ServiceKey)
failing business = none

abbrev rounds : List Listing
rounds = shop_only ∷ failing ∷ []

abbrev question : Question
question = record { name = codes "shop."; qtype = 1; qclass = 1 }

run-Reflects_example :
    Reflects
      (codes "10.4.4.4")
      (run keep_text rounds fresh []).0.local_dns_server
      (last_listed rounds [] [])
run-Reflects_example = run-Reflects keep_text rounds fresh refl

abbrev updated : LocalDnsServer
updated = update_lookup_table fresh.local_dns_server (codes "Shop.default" ∷ []) (codes "10.4.4.4")

-- The mixed-case name of a service that was listed before the last, failing round.
shop_answered :
    serve_dns (run keep_text rounds fresh []).0 question (codes "SHOP.")
    ≡ some (record empty_msg { answer = expected 1 (codes "shop.") (codes "10.4.4.4") 10 })
unfolding run reload serve_dns serve_local serve_table lookup_host update_lookup_table
    get_current_ns_service if_service_list_changed match_suffix add_quota remove_quota has_suffix
    str_eq to_lower member lookup with_namespace add insert
shop_answered = refl

abbrev entry : Str → Bool → ConfigEntry
entry name enable = record {
  name = name;
  suffix = dot;
  dns_ttl = pos 10;
  enable = enable;
  options = none;
  namespace = codes "default";
}

abbrev sample_config : ResolverConfig
sample_config = record {
  bind_ip = codes "127.0.0.1";
  bind_port = codes "53";
  resolvers =
      entry plugin_name_dns_agent true
      ∷ entry plugin_name_mesh_proxy false
      ∷ entry (codes "other") true
      ∷ [];
}

abbrev only_plugins : Str → Bool
only_plugins name = str_eq name plugin_name_dns_agent || str_eq name plugin_name_mesh_proxy

abbrev works : ConfigEntry → Bool
works c = true

new_server-Ends_example :
    ServerEnds only_plugins
      (enabled sample_config.resolvers)
      (new_server only_plugins works sample_config)
new_server-Ends_example = new_server-Ends only_plugins works sample_config

-- The resolver that was initialized before the unknown one is not destroyed.
unknown_resolver_leak :
    new_server only_plugins works sample_config
    ≡ (err (unknown_resolver (codes "other")), initialized plugin_name_dns_agent ∷ [])
unfolding new_server build_resolvers str_eq
unknown_resolver_leak = refl

abbrev good_config : ResolverConfig
good_config = record sample_config {
  resolvers = entry plugin_name_dns_agent true ∷ entry plugin_name_mesh_proxy true ∷ [];
}

abbrev both_names : List Str
both_names = plugin_name_dns_agent ∷ plugin_name_mesh_proxy ∷ []

abbrev made : Server
made = record {
  dns_sever_list =
      record { addr = codes "127.0.0.1:53"; net = udp; resolvers = both_names }
      ∷ record { addr = codes "127.0.0.1:53"; net = tcp; resolvers = both_names }
      ∷ [];
  resolvers = both_names;
  once = false;
}

makes :
    new_server only_plugins works good_config
    ≡ (ok made, initialized plugin_name_dns_agent ∷ initialized plugin_name_mesh_proxy ∷ [])
unfolding new_server build_resolvers make_server str_eq
makes = refl

new_server-destroy_example :
    (initialized plugin_name_dns_agent ∷ initialized plugin_name_mesh_proxy ∷ []
      ≡ init_all (enabled good_config.resolvers))
    × (destroy_times 3 made
        ≡ shut_down udp ∷ shut_down tcp ∷ destroy_all (enabled good_config.resolvers))
new_server-destroy_example = new_server-destroy only_plugins works good_config made _ 2 makes
