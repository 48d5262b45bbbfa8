-- ===== src/Resolver/Recursor/Proxy/Reach.antt =====
-- The attempts of `HandleDNS` reach every server, so one healthy server is enough.
use polaris_sidecar.Prelude.{
  Bool, Bool-cases, List, Option, Outcome, [], ap, arith, done, false, get_elem?, if◌then◌else◌,
  inl, inr, length, none, of_some, or_panic, panic, refl, some, suc, sym, true, zero, ℕ, ◌%◌, ◌+◌,
  ◌<◌, ◌∙◌, ◌∷◌, ◌≡◌, ◌≢◌, ◌≤◌, ◌⊎◌,
}
use polaris_sidecar.Prelude.Int.{pos_part}
use polaris_sidecar.Prelude.Text.{Str}
use polaris_sidecar.Resolver.Dns.{Msg, Question, rcode_name_error, rcode_success, tcp, udp}
use polaris_sidecar.Resolver.Recursor.Proxy.{
  Client, Exchanged, Proxy, RotatingUpstream, accepts, drawn, expand_query, forward, handle_dns,
  next, set_question_name, try_attempts, try_domains,
}
use polaris_sidecar.Resolver.Recursor.Proxy.Retry.{IsAlone, IsHealthy, NeverNil, handle_dns-answers}
use polaris_sidecar.Resolver.Recursor.Proxy.Rotation.{
  IsReady, advance, advance-IsReady, distance, next-IsReady, shift_index, start_index,
}

pub accepted_result :
    (result : Exchanged)
    → result ≢ (none, false)
    → accepts result ≡ true
    → (m : Msg) × (result.0 ≡ some m)
unfolding accepts
accepted_result (some m, failed) h e = (m, refl)
accepted_result (none, true) h e = cc
accepted_result (none, false) h e = absurd (h refl)

accepts-of_answer :
    (result : Exchanged) (m : Msg)
    → result ≡ (some m, false)
    → (m.rcode ≡ rcode_success) ⊎ (m.rcode ≡ rcode_name_error)
    → accepts result ≡ true
unfolding accepts
accepts-of_answer result m e h = rw e (ground arith)

module _ {W : Type 0} (exchange : Client → Msg → Str → W → Exchanged × ℕ × W) where
  -- A name is answered, and the rotation and the world move on.
  abbrev Answered : Outcome (Option (Option Msg) × RotatingUpstream × W) → Type 0
  Answered o =
      (m : Msg) × (rotate : RotatingUpstream) × (w : W) × (o ≡ done (some (some m), rotate, w))

  attempt_step :
      IsAlone exchange
      → (k : ℕ) (client : Client) (req : Msg) (rotate : RotatingUpstream) (w : W) (server : Str)
      → next rotate ≡ done (server, advance rotate)
      → try_attempts exchange (suc k) client req rotate w ≡ (
          let (result, others, w') = exchange client req server w in
          if accepts result
          then done (some result.0, advance rotate, w')
          else try_attempts exchange k client req (advance rotate) w')
  unfolding try_attempts drawn
  attempt_step alone k client req rotate w server d = rw (d, alone client req server w)

  pub handle_question :
      (q : Question) (qs : List Question) (p : Proxy) (is_tcp : Bool) (r : Msg) (w : W)
      → r.question ≡ q ∷ qs
      → handle_dns exchange (some p) is_tcp r w ≡ forward exchange (q ∷ qs) p is_tcp r w
  unfolding handle_dns
  handle_question q qs p is_tcp r w e = ap (λ l. forward exchange l p is_tcp r w) e

  pub forward_done :
      (q : Question) (qs : List Question) (domains : List Str) (p : Proxy) (is_tcp : Bool) (r : Msg)
      (w w' : W) (resp : Option Msg) (rotate : RotatingUpstream)
      → expand_query p.config q.name ≡ domains
      → try_domains exchange domains
          (pos_part p.config.attempts)
          (record { net = if is_tcp then tcp else udp; timeout = p.config.timeout })
          r
          p.rotate
          w
        ≡ done (resp, rotate, w')
      → forward exchange (q ∷ qs) p is_tcp r w
        ≡ done (resp, some (record p { rotate = rotate }), w')
  unfolding forward
  forward_done q qs domains p is_tcp r w w' resp rotate e g = rw (e, g)

  try_domains-no_server :
      (k : ℕ) (domain : Str) (domains : List Str) (client : Client) (q : Question)
      (qs : List Question) (r : Msg) (rotate : RotatingUpstream) (w : W)
      → rotate.servers ≡ []
      → r.question ≡ q ∷ qs
      → try_domains exchange (domain ∷ domains) (suc k) client r rotate w ≡ panic
  unfolding try_domains try_attempts next set_question_name
  try_domains-no_server k domain domains client q qs r rotate w e qe =
      rw (qe, set_question_name, e, or_panic)

  -- A proxy with no upstream server panics on every query that leads to a name, if it is to make
  -- an attempt: the rotation has no server to give.
  pub handle_dns-panic :
      (k : ℕ) (domain : Str) (domains : List Str) (p : Proxy) (is_tcp : Bool) (q : Question)
      (qs : List Question) (r : Msg) (w : W)
      → p.rotate.servers ≡ []
      → pos_part p.config.attempts ≡ suc k
      → r.question ≡ q ∷ qs
      → expand_query p.config q.name ≡ domain ∷ domains
      → handle_dns exchange (some p) is_tcp r w ≡ panic
  unfolding forward
  handle_dns-panic k domain domains p is_tcp q qs r w e ae qe de =
      handle_question q qs p is_tcp r w qe
      ∙ rw (de, ae, try_domains-no_server k domain domains _ q qs r p.rotate w e qe)

  module _ (never_nil : NeverNil exchange) (alone : IsAlone exchange) where
    attempt_accepted :
        (k : ℕ) (client : Client) (req : Msg) (rotate : RotatingUpstream) (w : W) (server : Str)
        → next rotate ≡ done (server, advance rotate)
        → accepts (exchange client req server w).0 ≡ true
        → Answered (try_attempts exchange (suc k) client req rotate w)
    attempt_accepted k client req rotate w server d e =
        let (result, others, w') = exchange client req server w in
        let (m, f) = accepted_result result (never_nil client req server w) e in
        (
          m,
          advance rotate,
          w',
          attempt_step alone k client req rotate w server d
              ∙ rw e (ap (λ o. done (some o, advance rotate, w')) f),
        )

    try_attempts-healthy :
        (server : Str) (t k : ℕ) (client : Client) (req : Msg) (rotate : RotatingUpstream) (w : W)
        → IsHealthy exchange server
        → IsReady rotate
        → t < k
        → get_elem? rotate.servers ((rotate.index + t) % length rotate.servers) ≡ some server
        → Answered (try_attempts exchange k client req rotate w)
    try_attempts-healthy server t zero client req rotate w hs v h e = elim h [ ]
    try_attempts-healthy server zero (suc k) client req rotate w hs v h e =
        let (s, f, d) = next-IsReady rotate v in
        let same : s ≡ server = of_some s server (
          sym f
          ∙ ap (get_elem? rotate.servers)
              (sym (start_index rotate.index (length rotate.servers) v.in_range))
          ∙ e) in
        let (m, g, answered) = hs client req w in
        let found : accepts (exchange client req s w).0 ≡ true =
          ap (λ u. accepts (exchange client req u w).0) same
          ∙ accepts-of_answer (exchange client req server w).0 m g answered in
        attempt_accepted k client req rotate w s d found
    try_attempts-healthy server (suc t) (suc k) client req rotate w hs v h e =
        let (s, f, d) = next-IsReady rotate v in
        elim (Bool-cases (accepts (exchange client req s w).0)) [
          | inl a ↦ attempt_accepted k client req rotate w s d a
          | inr a ↦
              let (m, rotate', w', g) =
                try_attempts-healthy server t k client req (advance rotate)
                  (exchange client req s w).2 hs (advance-IsReady rotate v) (omega arith)
                  (ap (get_elem? rotate.servers)
                      (shift_index rotate.index t (length rotate.servers))
                    ∙ e) in
              (m, rotate', w', attempt_step alone k client req rotate w s d ∙ rw a g)
        ]

    index_of :
        (server : Str) (i : ℕ) (servers : List Str)
        → get_elem? servers i ≡ some server
        → i < length servers
    index_of server i [] e = absurd (cc)
    index_of server zero (s ∷ servers) e = omega arith
    index_of server (suc i) (s ∷ servers) e = omega (arith, index_of server i servers e)

    try_domains-healthy :
        (server domain : Str) (i k : ℕ) (domains : List Str) (client : Client) (q : Question)
        (qs : List Question) (r : Msg) (rotate : RotatingUpstream) (w : W)
        → IsHealthy exchange server
        → IsReady rotate
        → length rotate.servers ≤ k
        → get_elem? rotate.servers i ≡ some server
        → r.question ≡ q ∷ qs
        → (m : Msg) × (rotate' : RotatingUpstream) × (w' : W) × (try_domains exchange
              (domain ∷ domains)
              k
              client
              r
              rotate
              w
            ≡ done (some m, rotate', w'))
    unfolding try_domains set_question_name
    try_domains-healthy server domain i k domains client q qs r rotate w hs v le e qe =
        let n = length rotate.servers in
        let (t, lt, at) =
          distance rotate.index i n v.in_range (index_of server i rotate.servers e) in
        let req = record r { question = record q { name = domain } ∷ qs } in
        let (m, rotate', w', g) =
          try_attempts-healthy server t k client req rotate w hs v (omega arith)
            (ap (get_elem? rotate.servers) at ∙ e) in
        (m, rotate', w', rw (qe, set_question_name, g))

    -- With as many attempts as servers, one healthy server is enough, wherever the rotation
    -- stands and whatever the other servers do, as long as each exchange gives a reply or an error
    -- and no other query draws from the rotation meanwhile: a query that leads to any name at all
    -- is answered, and the code is that of success or of a name that does not exist.
    pub handle_dns-healthy :
        (server domain : Str) (i : ℕ) (domains : List Str) (p : Proxy) (is_tcp : Bool)
        (q : Question) (qs : List Question) (r : Msg) (w : W)
        → IsHealthy exchange server
        → IsReady p.rotate
        → length p.rotate.servers ≤ pos_part p.config.attempts
        → get_elem? p.rotate.servers i ≡ some server
        → r.question ≡ q ∷ qs
        → expand_query p.config q.name ≡ domain ∷ domains
        → (m : Msg) × (p' : Option Proxy) × (w' : W) × (handle_dns exchange (some p) is_tcp r w
            ≡ done (some m, p', w'))
          × ((m.rcode ≡ rcode_success) ⊎ (m.rcode ≡ rcode_name_error))
    handle_dns-healthy server domain i domains p is_tcp q qs r w hs v le e qe de =
        let client : Client = record {
          net = if is_tcp then tcp else udp;
          timeout = p.config.timeout;
        } in
        let (m, rotate, w', g) =
          try_domains-healthy server domain i (pos_part p.config.attempts) domains client q qs r
            p.rotate w hs v le e qe in
        let p' = some (record p { rotate = rotate }) in
        let result : handle_dns exchange (some p) is_tcp r w ≡ done (some m, p', w') =
          handle_question q qs p is_tcp r w qe
          ∙ forward_done q qs (domain ∷ domains) p is_tcp r w w' (some m) rotate de g in
        (m, p', w', result, handle_dns-answers exchange (some p) is_tcp r w w' m p' result)
