-- ===== src/Resolver/Server.antt =====
-- internal/resolver/server.go: the resolvers are made from the configuration, and are destroyed
-- with the server. A resolver is known by the name under which it is registered.
pub mod Lifecycle
use polaris_sidecar.Prelude.{Bool, List, [], false, if◌then◌else◌, not, true, ◌++◌, ◌∷◌}
use polaris_sidecar.Prelude.Text.{Str}
use polaris_sidecar.Resolver.Dns.{tcp, udp}
use polaris_sidecar.Resolver.DnsAgent.{initialize}
use polaris_sidecar.Resolver.Plugin.{ConfigEntry}

-- What is done to the resolvers and the DNS servers.
pub data Event : Type 0 where
  initialized destroyed : Str → Event
  shut_down : Str → Event

-- `dns.Server`: where it listens, its network and the resolvers of its handler.
pub record DnsServer : Type 0 where
  pub addr : Str
  pub net : Str
  pub resolvers : List Str

-- `resolver.Server`; `once` tells whether `Destroy` has run.
pub record Server : Type 0 where
  pub dns_sever_list : List DnsServer
  pub resolvers : List Str
  pub once : Bool

pub data Error : Type 0 where
  unknown_resolver init_failed : Str → Error

pub data Result {ℓ} (A : Type ℓ) : Type ℓ where
  ok : A → Result A
  err : Error → Result A

-- `common.ResolverConfig`; the port is printed already.
pub record ResolverConfig : Type 0 where
  pub bind_ip : Str
  pub bind_port : Str
  pub resolvers : List ConfigEntry

unfoldable pub destroy_all : List Str → List Event
destroy_all [] = []
destroy_all (name ∷ names) = destroyed name ∷ destroy_all names

-- `common.NameResolver` finds a name if it is registered, and `Initialize` succeeds or fails.
module _ (registered : Str → Bool) (initialize : ConfigEntry → Bool) where
  -- The loop of `NewServer` over the entries, with the resolvers made so far and what was done.
  unfoldable pub build_resolvers :
      List ConfigEntry → List Str → List Event → Result (List Str) × List Event
  unfolding destroy_all
  build_resolvers [] handlers trace = (ok handlers, trace)
  build_resolvers (c ∷ cs) handlers trace =
      let skipped = build_resolvers cs handlers trace in
      let added = build_resolvers cs (handlers ++ c.name ∷ []) (trace ++ initialized c.name ∷ []) in
      if not c.enable
      then skipped
      else if not (registered c.name)
      then (err (unknown_resolver c.name), trace)
      else if not (initialize c)
      then (err (init_failed c.name), trace ++ destroy_all handlers)
      else added

  unfoldable pub make_server : ResolverConfig → Result (List Str) → Result Server
  make_server conf (err e) = err e
  make_server conf (ok handlers) =
      let addr = (conf.bind_ip ++ b':' ∷ []) ++ conf.bind_port in
      ok (record {
        dns_sever_list =
            record { addr = addr; net = udp; resolvers = handlers }
            ∷ record { addr = addr; net = tcp; resolvers = handlers }
            ∷ [];
        resolvers = handlers;
        once = false;
      })

  unfoldable pub new_server : ResolverConfig → Result Server × List Event
  unfolding build_resolvers make_server
  new_server conf =
      let (handlers, trace) = build_resolvers conf.resolvers [] [] in
      (make_server conf handlers, trace)

unfoldable pub shut_down_all : List DnsServer → List Event
shut_down_all [] = []
shut_down_all (s ∷ servers) = shut_down s.net ∷ shut_down_all servers

-- `Destroy`: the DNS servers are shut down, and then the resolvers are destroyed, once.
unfoldable pub destroy : Server → Server × List Event
unfolding shut_down_all destroy_all
destroy svr =
    if svr.once
    then (svr, [])
    else (record svr { once = true }, shut_down_all svr.dns_sever_list ++ destroy_all svr.resolvers)
