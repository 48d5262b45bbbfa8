-- ===== src/Resolver/Recursor/Proxy/Total.antt =====
-- `HandleDNS` of internal/resolver/recursor/proxy.go returns, with a result or without.
use polaris_sidecar.Prelude.{
  Bool, Bool-cases, List, Option, Option-cases, Outcome, [], ap, done, if◌then◌else◌, inl, inr,
  none, refl, some, suc, zero, ℕ, ◌∙◌, ◌∷◌, ◌≡◌,
}
use polaris_sidecar.Prelude.Int.{pos_part}
use polaris_sidecar.Prelude.Text.{Str}
use polaris_sidecar.Resolver.Dns.{Msg, Question, tcp, udp}
use polaris_sidecar.Resolver.Recursor.Proxy.{
  Client, Exchanged, Proxy, RotatingUpstream, accepts, drawn, expand_query, handle_dns,
  set_question_name, try_attempts, try_domains,
}
use polaris_sidecar.Resolver.Recursor.Proxy.Reach.{forward_done, handle_question}
use polaris_sidecar.Resolver.Recursor.Proxy.Rotation.{
  IsReady, advance, advance-IsReady, drawn-IsReady, next-IsReady,
}

module _ {W : Type 0} (exchange : Client → Msg → Str → W → Exchanged × ℕ × W) where
  -- The attempts return, and the rotation stays in range.
  abbrev Returned : Outcome (Option (Option Msg) × RotatingUpstream × W) → Type 0
  Returned o =
      (found : Option (Option Msg)) × (rotate : RotatingUpstream) × (w : W) × (o
        ≡ done (found, rotate, w))
      × IsReady rotate

  try_attempts-total :
      (k : ℕ) (client : Client) (req : Msg) (rotate : RotatingUpstream) (w : W)
      → IsReady rotate
      → Returned (try_attempts exchange k client req rotate w)
  unfolding try_attempts
  try_attempts-total zero client req rotate w v = (none, rotate, w, refl, v)
  try_attempts-total (suc k) client req rotate w v =
      let (s, f, d) = next-IsReady rotate v in
      let (result, others, w') = exchange client req s w in
      let ready = drawn-IsReady others (advance rotate) (advance-IsReady rotate v) in
      elim (Bool-cases (accepts result)) [
        | inl a ↦ (some result.0, drawn others (advance rotate), w', rw (d, a), ready)
        | inr a ↦
            let (found, rotate', w'', g, v') =
              try_attempts-total k client req (drawn others (advance rotate)) w' ready in
            (found, rotate', w'', rw (d, a) g, v')
      ]

  set_question_name-cons :
      (domain : Str) (q : Question) (qs : List Question) (r : Msg)
      → r.question ≡ q ∷ qs
      → set_question_name r domain ≡ done (record r { question = record q { name = domain } ∷ qs })
  unfolding set_question_name
  set_question_name-cons domain q qs r e = rw (e, set_question_name)

  -- What is left to do after the attempts at one name.
  abbrev continue :
      List Str
      → ℕ
      → Client
      → Msg
      → Option (Option Msg)
      → RotatingUpstream
      → W
      → Outcome (Option Msg × RotatingUpstream × W)
  continue domains k client r none rotate w = try_domains exchange domains k client r rotate w
  continue domains k client r (some resp) rotate w = done (resp, rotate, w)

  try_rest :
      (domain : Str) (domains : List Str) (k : ℕ) (client : Client) (q : Question)
      (qs : List Question) (r : Msg) (rotate rotate' : RotatingUpstream) (w w' : W)
      (found : Option (Option Msg))
      → r.question ≡ q ∷ qs
      → try_attempts exchange k client
          (record r { question = record q { name = domain } ∷ qs })
          rotate
          w
        ≡ done (found, rotate', w')
      → try_domains exchange (domain ∷ domains) k client r rotate w
        ≡ continue domains k client r found rotate' w'
  unfolding try_domains
  try_rest domain domains k client q qs r rotate rotate' w w' none qe g =
      rw (set_question_name-cons domain q qs r qe, g)
  try_rest domain domains k client q qs r rotate rotate' w w' (some resp) qe g =
      rw (set_question_name-cons domain q qs r qe, g)

  try_domains-total :
      (domains : List Str) (k : ℕ) (client : Client) (q : Question) (qs : List Question) (r : Msg)
      (rotate : RotatingUpstream) (w : W)
      → IsReady rotate
      → r.question ≡ q ∷ qs
      → (resp : Option Msg) × (rotate' : RotatingUpstream) × (w' : W) × (try_domains exchange
            domains k client r rotate w
          ≡ done (resp, rotate', w'))
        × IsReady rotate'
  unfolding try_domains
  try_domains-total [] k client q qs r rotate w v qe = (none, rotate, w, refl, v)
  try_domains-total (domain ∷ domains) k client q qs r rotate w v qe =
      let req = record r { question = record q { name = domain } ∷ qs } in
      let (found, rotate', w', g, v') = try_attempts-total k client req rotate w v in
      elim (Option-cases found) [
        | inl e ↦
            let (resp, rotate'', w'', h, v'') =
              try_domains-total domains k client q qs r rotate' w' v' qe in
            (
              resp,
              rotate'',
              w'',
              try_rest domain domains k client q qs r rotate rotate' w w' none qe
                    (g ∙ ap (λ o. done (o, rotate', w')) e)
                  ∙ h,
              v'',
            )
        | inr (resp, e) ↦ (
          resp,
          rotate',
          w',
          try_rest domain domains k client q qs r rotate rotate' w w' (some resp) qe
              (g ∙ ap (λ o. done (o, rotate', w')) e),
          v',
        )
      ]

  -- With an upstream server in turn, every request with a question comes back from the fallback,
  -- and the rotation stays in range.
  pub handle_dns-total :
      (p : Proxy) (is_tcp : Bool) (q : Question) (qs : List Question) (r : Msg) (w : W)
      → IsReady p.rotate
      → r.question ≡ q ∷ qs
      → (resp : Option Msg) × (p' : Proxy) × (w' : W) × (handle_dns exchange (some p) is_tcp r w
          ≡ done (resp, some p', w'))
        × IsReady p'.rotate
        × (p'.config ≡ p.config)
  handle_dns-total p is_tcp q qs r w v qe =
      let client : Client = record {
        net = if is_tcp then tcp else udp;
        timeout = p.config.timeout;
      } in
      let (resp, rotate, w', g, v') =
        try_domains-total (expand_query p.config q.name) (pos_part p.config.attempts) client q qs r
          p.rotate w v qe in
      (
        resp,
        record p { rotate = rotate },
        w',
        handle_question exchange q qs p is_tcp r w qe
            ∙ forward_done exchange q qs _ p is_tcp r w w' resp rotate refl g,
        v',
        refl,
      )
