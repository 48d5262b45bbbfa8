-- ===== src/Resolver/Handler/Replies.antt =====
-- Which reply a request gets from internal/resolver/handler.go.
use polaris_sidecar.Prelude.{
  All, Bool, Bool-cases, List, Option, [], ap, done, false, inl, inr, none, refl, some, true, ℕ,
  ◌++◌, ◌∙◌, ◌∷◌, ◌≡◌, ◌⊎◌,
}
use polaris_sidecar.Prelude.Text.{Str}
use polaris_sidecar.Resolver.Dns.{DnsLib, Msg, Question, rcode_server_failure}
use polaris_sidecar.Resolver.Handler.{
  DnsHandler, Resolve, can_do_resolve, fall_back, preprocess, resolve, serve_dns, serve_question,
  serve_resolvers,
}
use polaris_sidecar.Resolver.Recursor.Proxy.{Client, Exchanged, Proxy, handle_dns}
use polaris_sidecar.Resolver.Response.{write_dns_code, write_dns_response}

-- A resolver that leaves a question to the others.
abbrev pub Declines : Question → Str → Resolve → Type 0
Declines question qname handler = handler question qname ≡ done none

serve_resolvers-first :
    (before : List Resolve) (handler : Resolve) (rest : List Resolve) (question : Question)
    (qname : Str) (m : Msg)
    → All (Declines question qname) before
    → handler question qname ≡ done (some m)
    → serve_resolvers (before ++ handler ∷ rest) question qname ≡ done (some m)
unfolding serve_resolvers
serve_resolvers-first [] handler rest question qname m h e = rw e
serve_resolvers-first (b ∷ before) handler rest question qname m h e =
    rw h.0 (serve_resolvers-first before handler rest question qname m h.1 e)

serve_resolvers-none :
    (handlers : List Resolve) (question : Question) (qname : Str)
    → All (Declines question qname) handlers
    → serve_resolvers handlers question qname ≡ done none
unfolding serve_resolvers
serve_resolvers-none [] question qname h = refl
serve_resolvers-none (handler ∷ handlers) question qname h =
    rw h.0 (serve_resolvers-none handlers question qname h.1)

pub resolve-none :
    (d : DnsHandler) (question : Question)
    → (can_do_resolve question.qtype ≡ false)
      ⊎ All (Declines question (preprocess d.recurse_proxy question.name)) d.resolvers
    → resolve d question ≡ done none
unfolding resolve
resolve-none d question (inl c) = rw c
resolve-none d question (inr h) = elim (Bool-cases (can_do_resolve question.qtype)) [
  | inl e ↦ rw e (serve_resolvers-none d.resolvers question _ h)
  | inr e ↦ rw e
]

module _ (lib : DnsLib) {W : Type 0} (exchange : Client → Msg → Str → W → Exchanged × ℕ × W) where
  -- The steps of the handler, as equations.
  pub serve-question :
      (d : DnsHandler) (is_tcp : Bool) (req : Msg) (w : W) (question : Question)
      (rest : List Question)
      → req.question ≡ question ∷ rest
      → serve_dns lib exchange d is_tcp req w
        ≡ serve_question lib exchange (question ∷ rest) d is_tcp req w
  unfolding serve_dns
  serve-question d is_tcp req w question rest e =
      ap (λ qs. serve_question lib exchange qs d is_tcp req w) e

  pub serve-resolved :
      (d : DnsHandler) (is_tcp : Bool) (req m : Msg) (w : W) (question : Question)
      (rest : List Question)
      → resolve d question ≡ done (some m)
      → serve_question lib exchange (question ∷ rest) d is_tcp req w
        ≡ done (write_dns_response lib d.protocol req m, d.recurse_proxy, w)
  unfolding serve_question
  serve-resolved d is_tcp req m w question rest e = rw e

  pub serve-unresolved :
      (d : DnsHandler) (is_tcp : Bool) (req : Msg) (w : W) (question : Question)
      (rest : List Question)
      → resolve d question ≡ done none
      → serve_question lib exchange (question ∷ rest) d is_tcp req w
        ≡ fall_back lib exchange d is_tcp req w
  unfolding serve_question
  serve-unresolved d is_tcp req w question rest e = rw e

  -- What is written for what the fallback finds.
  abbrev pub conclusion : Str → Msg → Option Msg → Msg
  conclusion protocol req none = write_dns_code lib protocol req rcode_server_failure
  conclusion protocol req (some m) = write_dns_response lib protocol req m

  pub fall_back-done :
      (d : DnsHandler) (is_tcp : Bool) (req : Msg) (w w' : W) (found : Option Msg)
      (p : Option Proxy)
      → handle_dns exchange d.recurse_proxy is_tcp req w ≡ done (found, p, w')
      → fall_back lib exchange d is_tcp req w ≡ done (conclusion d.protocol req found, p, w')
  unfolding fall_back
  fall_back-done d is_tcp req w w' none p e = rw e
  fall_back-done d is_tcp req w w' (some m) p e = rw e

  pub handle_dns-nil :
      (is_tcp : Bool) (req : Msg) (w : W)
      → handle_dns exchange none is_tcp req w ≡ done (none, none, w)
  unfolding handle_dns
  handle_dns-nil is_tcp req w = refl

  -- A question of a type that is served is answered by the first resolver that replies to the
  -- name without its search domain; the resolvers behind it and the fallback are not asked.
  pub serve_dns-first :
      (d : DnsHandler) (is_tcp : Bool) (req m : Msg) (w : W) (question : Question)
      (qs : List Question) (before : List Resolve) (handler : Resolve) (rest : List Resolve)
      → req.question ≡ question ∷ qs
      → can_do_resolve question.qtype ≡ true
      → d.resolvers ≡ before ++ handler ∷ rest
      → All (Declines question (preprocess d.recurse_proxy question.name)) before
      → handler question (preprocess d.recurse_proxy question.name) ≡ done (some m)
      → serve_dns lib exchange d is_tcp req w
        ≡ done (write_dns_response lib d.protocol req m, d.recurse_proxy, w)
  unfolding resolve
  serve_dns-first d is_tcp req m w question qs before handler rest qe c r h e =
      serve-question d is_tcp req w question qs qe
      ∙ serve-resolved d is_tcp req m w question qs
          (rw (c, resolve, r) (serve_resolvers-first before handler rest question _ m h e))
