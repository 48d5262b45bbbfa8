-- ===== src/Resolver/Handler/Fallback.antt =====
-- What a request is answered with that internal/resolver/handler.go gives to the fallback.
use polaris_sidecar.Prelude.{
  All, Bool, List, Option, [], done, false, none, some, true, ℕ, ◌++◌, ◌∙◌, ◌∷◌, ◌≡◌, ◌⊎◌,
}
use polaris_sidecar.Prelude.Text.{Str}
use polaris_sidecar.Resolver.Dns.{DnsLaws, DnsLib, Msg, Question, Rr, rcode_server_failure}
use polaris_sidecar.Resolver.Handler.{DnsHandler, can_do_resolve, preprocess, serve_dns}
use polaris_sidecar.Resolver.Handler.Replies.{
  Declines, conclusion, fall_back-done, handle_dns-nil, resolve-none, serve-question,
  serve-unresolved,
}
use polaris_sidecar.Resolver.Handler.Total.{IsUsable}
use polaris_sidecar.Resolver.Recursor.Proxy.{Client, Exchanged, Proxy, handle_dns}
use polaris_sidecar.Resolver.Recursor.Proxy.Total.{handle_dns-total}
use polaris_sidecar.Resolver.Response.Written.{write_dns_code_lem, write_dns_response_lem}

-- The reply to a request, for what the fallback found: its answers, some of which may be cut off
-- at the end, or nothing but the code of a server failure.
abbrev pub RepliesWith : Option Msg → Msg → Msg → Type 0
RepliesWith none req m =
    (m.id ≡ req.id) × (m.response ≡ true) × (m.rcode ≡ rcode_server_failure) × (m.answer ≡ [])
RepliesWith (some found) req m =
    (m.id ≡ req.id)
    × (m.response ≡ true)
    × (m.authoritative ≡ true)
    × ((rest : List (Option Rr)) × (found.answer ≡ m.answer ++ rest))

module _ (lib : DnsLib) (laws : DnsLaws lib) {W : Type 0}
    (exchange : Client → Msg → Str → W → Exchanged × ℕ × W) where
  conclusion-RepliesWith :
      (protocol : Str) (req : Msg) (found : Option Msg)
      → RepliesWith found req (conclusion lib exchange protocol req found)
  conclusion-RepliesWith protocol req none =
      let (id, response, rcode, ra, answer) =
        write_dns_code_lem lib laws protocol req rcode_server_failure in
      (id, response, rcode, answer)
  conclusion-RepliesWith protocol req (some m) =
      let (id, response, aa, ra, rcode, rest) = write_dns_response_lem lib laws protocol req m in
      (id, response, aa, rest)

  handle_dns-returns :
      (p : Option Proxy) (is_tcp : Bool) (req : Msg) (w : W) (question : Question)
      (qs : List Question)
      → req.question ≡ question ∷ qs
      → IsUsable p
      → (found : Option Msg) × (p' : Option Proxy) × (w' : W) × (handle_dns exchange p is_tcp req w
          ≡ done (found, p', w'))
  handle_dns-returns none is_tcp req w question qs e u =
      (none, none, w, handle_dns-nil lib exchange is_tcp req w)
  handle_dns-returns (some p) is_tcp req w question qs e u =
      let (found, p', w', g, _, _) = handle_dns-total exchange p is_tcp question qs req w u e in
      (found, some p', w', g)

  -- A question of another type than the three that are served goes to the fallback alone, and so
  -- does one that every resolver leaves. If the fallback is not configured, or has an upstream
  -- server in turn, the request is answered: by the answers that the fallback finds, but for some
  -- that are cut off at the end, or else, without an answer, by the code of a server failure.
  -- `SetReply` and `Truncate` do what miekg/dns promises.
  pub serve_dns-fall_back :
      (d : DnsHandler) (is_tcp : Bool) (req : Msg) (w : W) (question : Question)
      (qs : List Question)
      → req.question ≡ question ∷ qs
      → (can_do_resolve question.qtype ≡ false)
        ⊎ All (Declines question (preprocess d.recurse_proxy question.name)) d.resolvers
      → IsUsable d.recurse_proxy
      → (found : Option Msg) × (p : Option Proxy) × (w' : W) × (m : Msg) × (handle_dns exchange
            d.recurse_proxy is_tcp req w
          ≡ done (found, p, w'))
        × (serve_dns lib exchange d is_tcp req w ≡ done (m, p, w'))
        × RepliesWith found req m
  serve_dns-fall_back d is_tcp req w question qs qe h u =
      let (found, p, w', e) = handle_dns-returns d.recurse_proxy is_tcp req w question qs qe u in
      (
        found,
        p,
        w',
        conclusion lib exchange d.protocol req found,
        e,
        serve-question lib exchange d is_tcp req w question qs qe
            ∙ serve-unresolved lib exchange d is_tcp req w question qs (resolve-none d question h)
            ∙ fall_back-done lib exchange d is_tcp req w w' found p e,
        conclusion-RepliesWith d.protocol req found,
      )
