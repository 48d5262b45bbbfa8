-- ===== src/Resolver/Handler/Total.antt =====
-- Every request that internal/resolver/handler.go gets is answered.
use polaris_sidecar.Prelude.{
  All, Bool, Bool-cases, List, Option, Option-cases, [], ap, done, inl, inr, none, refl, some, ℕ,
  ◌∙◌, ◌∷◌, ◌≡◌,
}
use polaris_sidecar.Prelude.Text.{Str}
use polaris_sidecar.Resolver.Dns.{DnsLib, Msg, Question, rcode_refused}
use polaris_sidecar.Resolver.Handler.{
  DnsHandler, Resolve, can_do_resolve, fall_back, preprocess, resolve, serve_dns, serve_question,
  serve_resolvers,
}
use polaris_sidecar.Resolver.Handler.Replies.{
  conclusion, fall_back-done, handle_dns-nil, serve-resolved, serve-unresolved,
}
use polaris_sidecar.Resolver.Recursor.Proxy.{Client, Exchanged, Proxy, handle_dns}
use polaris_sidecar.Resolver.Recursor.Proxy.Rotation.{IsReady}
use polaris_sidecar.Resolver.Recursor.Proxy.Total.{handle_dns-total}
use polaris_sidecar.Resolver.Response.{write_dns_code, write_dns_response}

-- A resolver that does not panic on a question.
abbrev pub Returns : Question → Str → Resolve → Type 0
Returns question qname handler = (resp : Option Msg) × (handler question qname ≡ done resp)

serve_resolvers-total :
    (handlers : List Resolve) (question : Question) (qname : Str)
    → All (Returns question qname) handlers
    → (resp : Option Msg) × (serve_resolvers handlers question qname ≡ done resp)
unfolding serve_resolvers
serve_resolvers-total [] question qname h = (none, refl)
serve_resolvers-total (handler ∷ handlers) question qname ((resp, e), h) =
    elim (Option-cases resp) [
      | inl f ↦
          let (found, g) = serve_resolvers-total handlers question qname h in (found, rw (e, f) g)
      | inr (m, f) ↦ (some m, rw (e, f))
    ]

resolve-total :
    (d : DnsHandler) (question : Question)
    → All (Returns question (preprocess d.recurse_proxy question.name)) d.resolvers
    → (resp : Option Msg) × (resolve d question ≡ done resp)
unfolding resolve
resolve-total d question h = elim (Bool-cases (can_do_resolve question.qtype)) [
  | inl e ↦
      let (resp, f) =
        serve_resolvers-total d.resolvers question (preprocess d.recurse_proxy question.name) h in
      (resp, rw (e, resolve) f)
  | inr e ↦ (none, rw (e, resolve))
]

-- No resolver panics on the first question.
abbrev pub FirstReturns : DnsHandler → List Question → Type 0
FirstReturns d [] = Unit
FirstReturns d (question ∷ qs) =
    All (Returns question (preprocess d.recurse_proxy question.name)) d.resolvers

-- A fallback that is not configured, or has an upstream server in turn.
abbrev pub IsUsable : Option Proxy → Type 0
IsUsable none = Unit
IsUsable (some p) = IsReady p.rotate

module _ (lib : DnsLib) {W : Type 0} (exchange : Client → Msg → Str → W → Exchanged × ℕ × W) where
  fall_back-total :
      (d : DnsHandler) (p : Option Proxy) (is_tcp : Bool) (req : Msg) (w : W) (q : Question)
      (qs : List Question)
      → d.recurse_proxy ≡ p
      → req.question ≡ q ∷ qs
      → IsUsable p
      → (m : Msg) × (p' : Option Proxy) × (w' : W) × (fall_back lib exchange d is_tcp req w
          ≡ done (m, p', w'))
        × IsUsable p'
  fall_back-total d none is_tcp req w q qs e qe u = (
    conclusion lib exchange d.protocol req none,
    none,
    w,
    fall_back-done lib exchange d is_tcp req w w none none
        (ap (λ p. handle_dns exchange p is_tcp req w) e ∙ handle_dns-nil lib exchange is_tcp req w),
    tt,
  )
  fall_back-total d (some p) is_tcp req w q qs e qe u =
      let (found, p', w', g, v, _) = handle_dns-total exchange p is_tcp q qs req w u qe in
      (
        conclusion lib exchange d.protocol req found,
        some p',
        w',
        fall_back-done lib exchange d is_tcp req w w' found (some p')
            (ap (λ p. handle_dns exchange p is_tcp req w) e ∙ g),
        v,
      )

  serve_question-total :
      (d : DnsHandler) (is_tcp : Bool) (req : Msg) (w : W) (qs : List Question)
      → req.question ≡ qs
      → FirstReturns d qs
      → IsUsable d.recurse_proxy
      → (m : Msg) × (p : Option Proxy) × (w' : W) × (serve_question lib exchange qs d is_tcp req w
          ≡ done (m, p, w'))
        × IsUsable p
  serve_question-total d is_tcp req w [] qe h u = (
    write_dns_code lib d.protocol req rcode_refused,
    d.recurse_proxy,
    w,
    unfold serve_question in refl,
    u,
  )
  serve_question-total d is_tcp req w (question ∷ qs) qe h u =
      let (resp, e) = resolve-total d question h in
      elim (Option-cases resp) [
        | inl f ↦
            let (m, p, w', g, v) =
              fall_back-total d d.recurse_proxy is_tcp req w question qs refl qe u in
            (
              m,
              p,
              w',
              serve-unresolved lib exchange d is_tcp req w question qs (e ∙ ap done f) ∙ g,
              v,
            )
        | inr (m, f) ↦ (
          write_dns_response lib d.protocol req m,
          d.recurse_proxy,
          w,
          serve-resolved lib exchange d is_tcp req m w question qs (e ∙ ap done f),
          u,
        )
      ]

  -- Every request is answered by one message: if no resolver panics on its first question, and the
  -- fallback is not configured or has an upstream server in turn, a message is written, and the
  -- fallback is as usable as before.
  pub serve_dns-total :
      (d : DnsHandler) (is_tcp : Bool) (req : Msg) (w : W)
      → FirstReturns d req.question
      → IsUsable d.recurse_proxy
      → (m : Msg) × (p : Option Proxy) × (w' : W) × (serve_dns lib exchange d is_tcp req w
          ≡ done (m, p, w'))
        × IsUsable p
  serve_dns-total d is_tcp req w h u =
      unfold serve_dns in serve_question-total d is_tcp req w req.question refl h u
