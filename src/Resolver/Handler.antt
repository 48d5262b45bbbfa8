-- ===== src/Resolver/Handler.antt =====
-- internal/resolver/handler.go: a request goes to the resolvers in turn, and to the fallback if
-- none of them replies.
pub mod Search
pub mod Replies
pub mod Total
pub mod Fallback
use polaris_sidecar.Prelude.{
  Bool, List, Option, Outcome, [], done, false, if◌then◌else◌, is_empty, none, not, panic, some,
  true, ℕ, ◌++◌, ◌==◌, ◌>>=◌, ◌∷◌,
}
use polaris_sidecar.Prelude.Text.{Str, cut_end, has_suffix}
use polaris_sidecar.Qname.{dot}
use polaris_sidecar.Resolver.Dns.{
  DnsLib, Msg, Question, rcode_refused, rcode_server_failure, type_a, type_aaaa, type_srv,
}
use polaris_sidecar.Resolver.Recursor.Proxy.{Client, Exchanged, Proxy, handle_dns}
use polaris_sidecar.Resolver.Response.{write_dns_code, write_dns_response}

-- `ServeDNS` of a resolver, as it stands when a request comes: a panic, nil or a reply.
abbrev pub Resolve : Type 0
Resolve = Question → Str → Outcome (Option Msg)

pub record DnsHandler : Type 0 where
  pub protocol : Str
  pub resolvers : List Resolve
  pub recurse_proxy : Option Proxy

unfoldable pub with_dot : Str → Str
with_dot search_name = if not (has_suffix search_name dot) then search_name ++ dot else search_name

-- The loop of `Preprocess`.
unfoldable pub strip_search : List Str → Str → Str
unfolding with_dot
strip_search [] qname = qname
strip_search (search_name ∷ search) qname =
    let processed = cut_end qname (with_dot search_name) in
    let rest = strip_search search qname in
    if has_suffix qname (with_dot search_name)
    then (if is_empty processed then qname else processed)
    else rest

unfoldable pub preprocess : Option Proxy → Str → Str
unfolding strip_search
preprocess none qname = qname
preprocess (some p) qname =
    if is_empty p.config.search then qname else strip_search p.config.search qname

unfoldable pub can_do_resolve : ℕ → Bool
can_do_resolve qtype =
    if qtype == type_a
    then true
    else if qtype == type_aaaa
    then true
    else if qtype == type_srv
    then true
    else false

unfoldable pub serve_resolvers : List Resolve → Question → Str → Outcome (Option Msg)
serve_resolvers [] question qname = done none
serve_resolvers (handler ∷ handlers) question qname = do
  resp ← handler question qname
  let rest = serve_resolvers handlers question qname
  elim resp [ some m ↦ done (some m) | none ↦ rest ]

-- The resolvers are asked for the types that they serve only.
unfoldable pub resolve : DnsHandler → Question → Outcome (Option Msg)
unfolding can_do_resolve
resolve d question =
    let served = serve_resolvers d.resolvers question (preprocess d.recurse_proxy question.name) in
    if can_do_resolve question.qtype then served else done none

module _ (lib : DnsLib) {W : Type 0} (exchange : Client → Msg → Str → W → Exchanged × ℕ × W) where
  -- The message that is written, with the proxy and the world after it.
  abbrev pub Served : Type 0
  Served = Msg × Option Proxy × W

  finish : Str → Msg → Option Msg × Option Proxy × W → Served
  finish protocol req (none, p, w) = (write_dns_code lib protocol req rcode_server_failure, p, w)
  finish protocol req (some resp, p, w) = (write_dns_response lib protocol req resp, p, w)

  unfoldable pub fall_back : DnsHandler → Bool → Msg → W → Outcome Served
  unfolding finish
  fall_back d is_tcp req w = do
    result ← handle_dns exchange d.recurse_proxy is_tcp req w
    done (finish d.protocol req result)

  unfoldable pub serve_question : List Question → DnsHandler → Bool → Msg → W → Outcome Served
  unfolding fall_back
  serve_question [] d is_tcp req w =
      done (write_dns_code lib d.protocol req rcode_refused, d.recurse_proxy, w)
  serve_question (question ∷ rest) d is_tcp req w = do
    resp ← resolve d question
    let fallback = fall_back d is_tcp req w
    elim resp [
      | some m ↦ done (write_dns_response lib d.protocol req m, d.recurse_proxy, w)
      | none ↦ fallback
    ]

  unfoldable pub serve_dns : DnsHandler → Bool → Msg → W → Outcome Served
  unfolding serve_question
  serve_dns d is_tcp req w = serve_question req.question d is_tcp req w

  -- `recover`: after a panic nothing is written.
  unfoldable pub written : Outcome Served → Option Msg
  written panic = none
  written (done (m, p, w)) = some m
