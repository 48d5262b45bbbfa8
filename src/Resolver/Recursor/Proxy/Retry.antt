-- ===== src/Resolver/Recursor/Proxy/Retry.antt =====
-- The attempts of `HandleDNS` in internal/resolver/recursor/proxy.go.
use polaris_sidecar.Prelude.{
  Bool, Bool-cases, Ensures, Ensures-bind, List, Option, Outcome, [], arith, done, false, inl, inr,
  none, some, subst, suc, true, zero, ℕ, ◌∷◌, ◌≡◌, ◌≢◌, ◌⊎◌,
}
use polaris_sidecar.Prelude.Text.{Str}
use polaris_sidecar.Resolver.Dns.{Msg, Question, rcode_name_error, rcode_success}
use polaris_sidecar.Resolver.Recursor.Proxy.{
  Client, Exchanged, Proxy, RotatingUpstream, accepts, drawn, forward, handle_dns, next,
  set_question_name, try_attempts, try_domains,
}

module _ {W : Type 0} (exchange : Client → Msg → Str → W → Exchanged × ℕ × W) where
  -- A server that always answers, with or without an address for the name.
  abbrev pub IsHealthy : Str → Type 0
  IsHealthy server =
      (client : Client) (req : Msg) (w : W)
      → (m : Msg) × ((exchange client req server w).0 ≡ (some m, false))
        × ((m.rcode ≡ rcode_success) ⊎ (m.rcode ≡ rcode_name_error))

  -- `Exchange` returns a reply or an error.
  abbrev pub NeverNil : Type 0
  NeverNil =
      (client : Client) (req : Msg) (server : Str) (w : W)
      → (exchange client req server w).0 ≢ (none, false)

  -- No other query draws from the rotation during an exchange.
  abbrev pub IsAlone : Type 0
  IsAlone =
      (client : Client) (req : Msg) (server : Str) (w : W) → (exchange client req server w).1 ≡ 0

  -- Whatever a query returns to the client is an answer: the codes of success and of a name that
  -- does not exist.
  abbrev pub IsAnswer : Option Msg → Type 0
  IsAnswer none = Unit {0}
  IsAnswer (some m) = (m.rcode ≡ rcode_success) ⊎ (m.rcode ≡ rcode_name_error)

  pub accepts-IsAnswer : (result : Exchanged) → accepts result ≡ true → IsAnswer result.0
  unfolding accepts
  accepts-IsAnswer (none, failed) h = tt
  accepts-IsAnswer (some m, failed) h = ground arith

  abbrev AttemptOk : Option (Option Msg) × RotatingUpstream × W → Type 0
  AttemptOk (none, rotate, w) = Unit
  AttemptOk (some resp, rotate, w) = IsAnswer resp

  try_attempts-ok :
      (k : ℕ) (client : Client) (req : Msg) (rotate : RotatingUpstream) (w : W)
      → Ensures AttemptOk (try_attempts exchange k client req rotate w)
  unfolding try_attempts
  try_attempts-ok zero client req rotate w = tt
  try_attempts-ok (suc k) client req rotate w =
      Ensures-bind AttemptOk (next rotate) _ λ (server, rotate') _.
        let (result, others, w') = exchange client req server w in
        elim (Bool-cases (accepts result)) [
          | inl e ↦ rw e (accepts-IsAnswer result e)
          | inr e ↦ rw e (try_attempts-ok k client req (drawn others rotate') w')
        ]

  abbrev DomainOk : Option Msg × RotatingUpstream × W → Type 0
  DomainOk (resp, rotate, w) = IsAnswer resp

  domain_ok :
      (found : Option (Option Msg)) (rotate : RotatingUpstream) (w : W)
      (more : Outcome (Option Msg × RotatingUpstream × W))
      → AttemptOk (found, rotate, w)
      → Ensures DomainOk more
      → Ensures DomainOk (elim found [ some resp ↦ done (resp, rotate, w) | none ↦ more ])
  domain_ok none rotate w more h k = k
  domain_ok (some resp) rotate w more h k = h

  pub ensured {ℓ} :
      {A : Type ℓ} (P : A → Type 0) (m : Outcome A) (a : A) → Ensures P m → m ≡ done a → P a
  ensured P m a h e = subst (Ensures P) e h

  try_domains-ok :
      (domains : List Str) (k : ℕ) (client : Client) (r : Msg) (rotate : RotatingUpstream) (w : W)
      → Ensures DomainOk (try_domains exchange domains k client r rotate w)
  unfolding try_domains
  try_domains-ok [] k client r rotate w = tt
  try_domains-ok (domain ∷ domains) k client r rotate w =
      Ensures-bind DomainOk (set_question_name r domain) _ λ req _.
        Ensures-bind DomainOk (try_attempts exchange k client req rotate w) _
          λ (found, rotate', w') e.
            domain_ok found rotate' w' _
              (ensured AttemptOk _ (found, rotate', w') (try_attempts-ok k client req rotate w) e)
              (try_domains-ok domains k client r rotate' w')

  abbrev HandledOk : Option Msg × Option Proxy × W → Type 0
  HandledOk (resp, p, w) = IsAnswer resp

  forward-ok :
      (qs : List Question) (p : Proxy) (is_tcp : Bool) (r : Msg) (w : W)
      → Ensures HandledOk (forward exchange qs p is_tcp r w)
  unfolding forward
  forward-ok [] p is_tcp r w = tt
  forward-ok (q ∷ qs) p is_tcp r w =
      Ensures-bind HandledOk (try_domains exchange _ _ _ r p.rotate w) _
        λ result e. ensured DomainOk _ result (try_domains-ok _ _ _ r p.rotate w) e

  handle_dns-ok :
      (p : Option Proxy) (is_tcp : Bool) (r : Msg) (w : W)
      → Ensures HandledOk (handle_dns exchange p is_tcp r w)
  unfolding handle_dns
  handle_dns-ok none is_tcp r w = tt
  handle_dns-ok (some p) is_tcp r w = forward-ok r.question p is_tcp r w

  -- Whatever `HandleDNS` returns is a reply with the code of success or of a name that does not
  -- exist.
  pub handle_dns-answers :
      (p : Option Proxy) (is_tcp : Bool) (r : Msg) (w w' : W) (m : Msg) (p' : Option Proxy)
      → handle_dns exchange p is_tcp r w ≡ done (some m, p', w')
      → (m.rcode ≡ rcode_success) ⊎ (m.rcode ≡ rcode_name_error)
  handle_dns-answers p is_tcp r w w' m p' e =
      ensured HandledOk _ (some m, p', w') (handle_dns-ok p is_tcp r w) e
