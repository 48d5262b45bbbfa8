-- ===== src/Tests/Requests.antt =====
-- Requests to internal/resolver/handler.go.
use polaris_sidecar.Prelude.{
  Option, [], arith, done, false, inl, none, refl, some, ℕ, ◌+◌, ◌∷◌, ◌≡◌,
}
use polaris_sidecar.Prelude.Int.{pos}
use polaris_sidecar.Prelude.Text.{Str, codes}
use polaris_sidecar.Resolver.Dns.{Msg, Question, empty_msg, udp}
use polaris_sidecar.Resolver.Dns.Simple.{simple_laws, simple_lib}
use polaris_sidecar.Resolver.Handler.{DnsHandler, Resolve, can_do_resolve, preprocess, serve_dns}
use polaris_sidecar.Resolver.Handler.Fallback.{RepliesWith, serve_dns-fall_back}
use polaris_sidecar.Resolver.Handler.Replies.{serve_dns-first}
use polaris_sidecar.Resolver.Handler.Search.{Stripped, preprocess_lem}
use polaris_sidecar.Resolver.Handler.Total.{IsUsable, serve_dns-total}
use polaris_sidecar.Resolver.Recursor.Proxy.{Client, Exchanged, Proxy, handle_dns}
use polaris_sidecar.Resolver.Response.{write_dns_response}

-- A server that always answers; the world counts the queries.
abbrev exchange : Client → Msg → Str → ℕ → Exchanged × ℕ × ℕ
exchange client m s w = ((some (record m { rcode = 0 }), false), 0, w + 1)

abbrev question : Question
question = record { name = codes "x.y."; qtype = 1; qclass = 1 }

abbrev text_question : Question
text_question = record { name = codes "x.y."; qtype = 16; qclass = 1 }

abbrev req : Msg
req = record empty_msg { id = 9; question = question ∷ [] }

abbrev text_req : Msg
text_req = record empty_msg { id = 9; question = text_question ∷ [] }

abbrev declining : Resolve
declining q qname = done none

abbrev replying : Resolve
replying q qname = done (some empty_msg)

abbrev proxy : Proxy
proxy = record {
  config = record {
    ndots = 1;
    search = [];
    timeout = pos 1;
    attempts = pos 1;
    upstream = codes "a:53" ∷ [];
  };
  rotate = record { servers = codes "a:53" ∷ []; index = 0 };
}

abbrev handler : DnsHandler
handler = record {
  protocol = udp;
  resolvers = declining ∷ replying ∷ [];
  recurse_proxy = some proxy;
}

abbrev only_fallback : DnsHandler
only_fallback = record handler { recurse_proxy = none }

serve_dns-total_example :
    (m : Msg) × (p : Option Proxy) × (w' : ℕ) × (serve_dns simple_lib exchange handler false req 0
      ≡ done (m, p, w'))
    × IsUsable p
serve_dns-total_example =
    serve_dns-total simple_lib exchange handler false req 0
      ((none, refl), ((some empty_msg, refl), tt)) (record { in_range = omega arith })

serve_dns-first_example :
    serve_dns simple_lib exchange handler false req 0
    ≡ done (write_dns_response simple_lib udp req empty_msg, some proxy, 0)
serve_dns-first_example =
    serve_dns-first simple_lib exchange handler false req empty_msg 0 question [] (declining ∷ [])
      replying [] refl (unfold can_do_resolve in refl) refl (refl, tt) refl

serve_dns-fall_back_example :
    (found : Option Msg) × (p : Option Proxy) × (w' : ℕ) × (m : Msg) × (handle_dns exchange none
        false text_req 0
      ≡ done (found, p, w'))
    × (serve_dns simple_lib exchange only_fallback false text_req 0 ≡ done (m, p, w'))
    × RepliesWith found text_req m
serve_dns-fall_back_example =
    serve_dns-fall_back simple_lib simple_laws exchange only_fallback false text_req 0 text_question
      [] refl (inl (unfold can_do_resolve in refl)) tt

abbrev searching : Proxy
searching = record proxy {
  config = record proxy.config { search = codes "cluster.local" ∷ codes "svc." ∷ [] };
}

preprocess_lem_example :
    Stripped searching.config.search
      (codes "shop.svc.")
      (preprocess (some searching) (codes "shop.svc."))
preprocess_lem_example = preprocess_lem searching (codes "shop.svc.")
