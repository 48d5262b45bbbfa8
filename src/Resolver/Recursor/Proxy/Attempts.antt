-- ===== src/Resolver/Recursor/Proxy/Attempts.antt =====
-- When `HandleDNS` of internal/resolver/recursor/proxy.go gives up.
use native.Mathlib.Nat.{zero-mul}
use polaris_sidecar.Prelude.{
  Bool, Bool-cases, Ensures, Ensures-bind, List, Option, Outcome, [], arith, done, false, inl, inr,
  length, none, panic, some, subst, suc, sym, true, zero, ℕ, ◌*◌, ◌+◌, ◌∙◌, ◌∷◌, ◌≡◌, ◌≢◌, ◌⊎◌,
}
use polaris_sidecar.Prelude.Int.{pos_part}
use polaris_sidecar.Prelude.Text.{Str}
use polaris_sidecar.Resolver.Dns.{Msg, Question, rcode_name_error, rcode_success}
use polaris_sidecar.Resolver.Recursor.Proxy.{
  Client, Exchanged, Proxy, RotatingUpstream, accepts, drawn, expand_query, forward, handle_dns,
  next, set_question_name, try_attempts, try_domains,
}
use polaris_sidecar.Resolver.Recursor.Proxy.Reach.{accepted_result, handle_question}
use polaris_sidecar.Resolver.Recursor.Proxy.Retry.{NeverNil, accepts-IsAnswer, ensured}
use polaris_sidecar.Resolver.Recursor.Proxy.Rotation.{IsReady}
use polaris_sidecar.Resolver.Recursor.Proxy.Total.{handle_dns-total}

Ensures-imp {ℓ κ μ} :
    {A : Type ℓ} (P : A → Type κ) (Q : A → Type μ) (m : Outcome A)
    → ((a : A) → P a → Q a)
    → Ensures P m
    → Ensures Q m
Ensures-imp P Q (done a) f h = f a h
Ensures-imp P Q panic f h = tt

one_more : (n k : ℕ) → k + n * k ≡ suc n * k
one_more n k = ground arith

module _ {W : Type 0} (exchange : Client → Msg → Str → W → Exchanged × ℕ × W) (asked : W → ℕ) where
  -- The world counts the exchanges.
  abbrev pub Counts : Type 0
  Counts =
      (client : Client) (req : Msg) (server : Str) (w : W)
      → asked (exchange client req server w).2 ≡ suc (asked w)

  -- A reply with a code that is passed on, or so many exchanges without one.
  abbrev pub Concluded : W → ℕ → Option Msg → W → Type 0
  Concluded w n none w' = asked w' ≡ asked w + n
  Concluded w n (some m) w' = (m.rcode ≡ rcode_success) ⊎ (m.rcode ≡ rcode_name_error)

  module _ (never_nil : NeverNil exchange) (counts : Counts) where
    abbrev Tried : W → ℕ → Option (Option Msg) × RotatingUpstream × W → Type 0
    Tried w n (none, rotate, w') = asked w' ≡ asked w + n
    Tried w n (some none, rotate, w') = ⊥
    Tried w n (some (some m), rotate, w') = (m.rcode ≡ rcode_success) ⊎ (m.rcode ≡ rcode_name_error)

    Tried-later :
        (w w' : W) (n : ℕ) (x : Option (Option Msg) × RotatingUpstream × W)
        → asked w' ≡ suc (asked w)
        → Tried w' n x
        → Tried w (suc n) x
    Tried-later w w' n (none, rotate, w'') e h = omega (arith, e, h)
    Tried-later w w' n (some none, rotate, w'') e h = h
    Tried-later w w' n (some (some m), rotate, w'') e h = h

    answered :
        (w : W) (n : ℕ) (rotate : RotatingUpstream) (w' : W) (result : Exchanged)
        → result ≢ (none, false)
        → accepts result ≡ true
        → Tried w n (some result.0, rotate, w')
    answered w n rotate w' (none, failed) h e =
        let (m, f) = accepted_result (none, failed) h e in absurd (cc)
    answered w n rotate w' (some m, failed) h e = accepts-IsAnswer exchange (some m, failed) e

    try_attempts-Tried :
        (k : ℕ) (client : Client) (req : Msg) (rotate : RotatingUpstream) (w : W)
        → Ensures (Tried w k) (try_attempts exchange k client req rotate w)
    unfolding try_attempts
    try_attempts-Tried zero client req rotate w = omega arith
    try_attempts-Tried (suc k) client req rotate w =
        Ensures-bind (Tried w (suc k)) (next rotate) _ λ (server, rotate') _.
          let (result, others, w') = exchange client req server w in
          elim (Bool-cases (accepts result)) [
            | inl e ↦ rw e (
                answered w (suc k) (drawn others rotate') w' result (never_nil client req server w)
                  e)
            | inr e ↦ rw e (
                Ensures-imp (Tried w' k) (Tried w (suc k)) _
                  (λ x h. Tried-later w w' k x (counts client req server w) h)
                  (try_attempts-Tried k client req (drawn others rotate') w'))
          ]

    abbrev Finished : W → ℕ → Option Msg × RotatingUpstream × W → Type 0
    Finished w n (resp, rotate, w') = Concluded w n resp w'

    Finished-later :
        (w w' : W) (k n : ℕ) (x : Option Msg × RotatingUpstream × W)
        → asked w' ≡ asked w + k
        → Finished w' n x
        → Finished w (k + n) x
    Finished-later w w' k n (none, rotate, w'') e h = omega (arith, e, h)
    Finished-later w w' k n (some m, rotate, w'') e h = h

    domain-Finished :
        (w : W) (k n : ℕ) (found : Option (Option Msg)) (rotate : RotatingUpstream) (w' : W)
        (more : Outcome (Option Msg × RotatingUpstream × W))
        → Tried w k (found, rotate, w')
        → Ensures (Finished w' n) more
        → Ensures
            (Finished w (k + n))
            (elim found [ some resp ↦ done (resp, rotate, w') | none ↦ more ])
    domain-Finished w k n none rotate w' more h g =
        Ensures-imp (Finished w' n) (Finished w (k + n)) more (λ x f. Finished-later w w' k n x h f)
          g
    domain-Finished w k n (some none) rotate w' more h g = absurd h
    domain-Finished w k n (some (some m)) rotate w' more h g = h

    try_domains-Finished :
        (domains : List Str) (k : ℕ) (client : Client) (r : Msg) (rotate : RotatingUpstream) (w : W)
        → Ensures
            (Finished w (length domains * k))
            (try_domains exchange domains k client r rotate w)
    unfolding try_domains
    try_domains-Finished [] k client r rotate w = omega (arith, zero-mul k)
    try_domains-Finished (domain ∷ domains) k client r rotate w =
        subst
          (λ n.
            Ensures (Finished w n) (try_domains exchange (domain ∷ domains) k client r rotate w))
          (one_more (length domains) k)
          (Ensures-bind (Finished w (k + length domains * k)) (set_question_name r domain) _
            λ req _.
              Ensures-bind (Finished w (k + length domains * k))
                (try_attempts exchange k client req rotate w) _
                λ (found, rotate', w') e.
                  domain-Finished w k (length domains * k) found rotate' w' _
                    (ensured exchange (Tried w k) _ (found, rotate', w')
                      (try_attempts-Tried k client req rotate w) e)
                    (try_domains-Finished domains k client r rotate' w'))

    abbrev Handled : W → ℕ → Option Msg × Option Proxy × W → Type 0
    Handled w n (resp, p, w') = Concluded w n resp w'

    forward-Handled :
        (q : Question) (qs : List Question) (p : Proxy) (is_tcp : Bool) (r : Msg) (w : W)
        → Ensures
            (Handled w (length (expand_query p.config q.name) * pos_part p.config.attempts))
            (forward exchange (q ∷ qs) p is_tcp r w)
    unfolding forward
    forward-Handled q qs p is_tcp r w =
        let n = length (expand_query p.config q.name) * pos_part p.config.attempts in
        Ensures-bind (Handled w n) (try_domains exchange _ _ _ r p.rotate w) _ λ result e.
          ensured exchange (Finished w n) _ result (try_domains-Finished _ _ _ r p.rotate w) e

    -- A query comes back, with a reply whose code is that of success or of a name that does not
    -- exist, or else without one, and then as many exchanges were made as there are attempts for
    -- all of its names together: a failure or another code does not end it. Each exchange gives
    -- a reply or an error, and there is an upstream server in turn.
    pub handle_dns-retries :
        (p : Proxy) (is_tcp : Bool) (q : Question) (qs : List Question) (r : Msg) (w : W)
        → IsReady p.rotate
        → r.question ≡ q ∷ qs
        → (resp : Option Msg) × (p' : Proxy) × (w' : W) × (handle_dns exchange (some p) is_tcp r w
            ≡ done (resp, some p', w'))
          × Concluded w (length (expand_query p.config q.name) * pos_part p.config.attempts) resp w'
    handle_dns-retries p is_tcp q qs r w v e =
        let n = length (expand_query p.config q.name) * pos_part p.config.attempts in
        let (resp, p', w', g, _, _) = handle_dns-total exchange p is_tcp q qs r w v e in
        (
          resp,
          p',
          w',
          g,
          ensured exchange (Handled w n) (forward exchange (q ∷ qs) p is_tcp r w)
              (resp, some p', w') (forward-Handled q qs p is_tcp r w)
              (sym (handle_question exchange q qs p is_tcp r w e) ∙ g),
        )
