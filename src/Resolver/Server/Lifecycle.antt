-- ===== src/Resolver/Server/Lifecycle.antt =====
-- What becomes of the resolvers that `NewServer` of internal/resolver/server.go initializes.
use polaris_sidecar.Prelude.{
  Bool, Bool-cases, List, [], ap, append-nil, append_assoc, false, if◌then◌else◌, inl, inr, not,
  refl, subst, suc, sym, true, zero, ℕ, ◌++◌, ◌∙◌, ◌∷◌, ◌≡◌,
}
use polaris_sidecar.Prelude.Text.{Str}
use polaris_sidecar.Resolver.Dns.{tcp, udp}
use polaris_sidecar.Resolver.DnsAgent.{initialize}
use polaris_sidecar.Resolver.Plugin.{ConfigEntry}
use polaris_sidecar.Resolver.Server.{
  Event, ResolverConfig, Result, Server, build_resolvers, destroy, destroy_all, err, init_failed,
  initialized, make_server, new_server, ok, shut_down, shut_down_all, unknown_resolver,
}

-- The names of the enabled entries, in order.
unfoldable pub enabled : List ConfigEntry → List Str
enabled [] = []
enabled (c ∷ cs) = if c.enable then c.name ∷ enabled cs else enabled cs

unfoldable pub init_all : List Str → List Event
init_all [] = []
init_all (name ∷ names) = initialized name ∷ init_all names

init_all-append : (xs ys : List Str) → init_all (xs ++ ys) ≡ init_all xs ++ init_all ys
unfolding init_all
init_all-append [] ys = refl
init_all-append (x ∷ xs) ys = ap (λ t. initialized x ∷ t) (init_all-append xs ys)

module _ (registered : Str → Bool) (initialize : ConfigEntry → Bool) where
  -- How the loop over the entries ends, from the resolvers made before it.
  abbrev pub Ends : List ConfigEntry → List Str → Result (List Str) × List Event → Type 0
  Ends cs handlers (ok names, trace) = (names ≡ handlers ++ enabled cs) × (trace ≡ init_all names)
  Ends cs handlers (err (init_failed name), trace) =
      (made : List Str) × (trace ≡ init_all (handlers ++ made) ++ destroy_all (handlers ++ made))
  Ends cs handlers (err (unknown_resolver name), trace) =
      (registered name ≡ false) × ((made : List Str) × (trace ≡ init_all (handlers ++ made)))

  Ends-later :
      (c : ConfigEntry) (cs : List ConfigEntry) (handlers : List Str)
      (end : Result (List Str) × List Event)
      → c.enable ≡ true
      → Ends cs (handlers ++ c.name ∷ []) end
      → Ends (c ∷ cs) handlers end
  unfolding enabled
  Ends-later c cs handlers (ok names, trace) h (e, t) =
      (e ∙ append_assoc handlers (c.name ∷ []) (enabled cs) ∙ rw h, t)
  Ends-later c cs handlers (err (init_failed name), trace) h (made, t) =
      (c.name ∷ made, t ∙ rw (append_assoc handlers (c.name ∷ []) made))
  Ends-later c cs handlers (err (unknown_resolver name), trace) h (r, (made, t)) =
      (r, (c.name ∷ made, t ∙ rw (append_assoc handlers (c.name ∷ []) made)))

  Ends-skipped :
      (c : ConfigEntry) (cs : List ConfigEntry) (handlers : List Str)
      (end : Result (List Str) × List Event)
      → c.enable ≡ false
      → Ends cs handlers end
      → Ends (c ∷ cs) handlers end
  unfolding enabled
  Ends-skipped c cs handlers (ok names, trace) h (e, t) = (e ∙ rw h, t)
  Ends-skipped c cs handlers (err (init_failed name), trace) h x = x
  Ends-skipped c cs handlers (err (unknown_resolver name), trace) h x = x

  build_resolvers-Ends :
      (cs : List ConfigEntry) (handlers : List Str) (trace : List Event)
      → trace ≡ init_all handlers
      → Ends cs handlers (build_resolvers registered initialize cs handlers trace)
  unfolding build_resolvers
  build_resolvers-Ends [] handlers trace t = unfold enabled in (sym (append-nil handlers), t)
  build_resolvers-Ends (c ∷ cs) handlers trace t = elim (Bool-cases c.enable) [
    | inr e ↦
        simp (e, not) (Ends-skipped c cs handlers _ e (build_resolvers-Ends cs handlers trace t))
    | inl e ↦ elim (Bool-cases (registered c.name)) [
      | inr r ↦ simp (e, r, not) (refl, ([], t ∙ rw (append-nil handlers)))
      | inl r ↦ elim (Bool-cases (initialize c)) [
        | inr i ↦
            simp (e, r, i, not)
              ([], ap (λ x. x ++ destroy_all handlers) t ∙ rw (append-nil handlers))
        | inl i ↦
            simp (e, r, i, not)
              (Ends-later c cs handlers _ e (
                build_resolvers-Ends cs (handlers ++ c.name ∷ []) (trace ++ initialized c.name ∷ [])
                  (unfold init_all in
                    (ap (λ x. x ++ initialized c.name ∷ []) t
                      ∙ sym (init_all-append handlers (c.name ∷ []))))))
      ]
    ]
  ]

-- How `NewServer` ends.
abbrev pub ServerEnds : (Str → Bool) → List Str → Result Server × List Event → Type 0
ServerEnds registered names (ok svr, trace) =
    (svr.resolvers ≡ names) × (svr.once ≡ false) × (trace ≡ init_all names)
ServerEnds registered names (err (init_failed name), trace) =
    (made : List Str) × (trace ≡ init_all made ++ destroy_all made)
ServerEnds registered names (err (unknown_resolver name), trace) =
    (registered name ≡ false) × ((made : List Str) × (trace ≡ init_all made))

made-Ends :
    (registered : Str → Bool) (initialize : ConfigEntry → Bool) (conf : ResolverConfig)
    (end : Result (List Str) × List Event)
    → Ends registered initialize conf.resolvers [] end
    → ServerEnds registered
        (enabled conf.resolvers)
        (make_server registered initialize conf end.0, end.1)
unfolding make_server
made-Ends registered initialize conf (ok names, trace) (e, t) = (e, refl, t ∙ ap init_all e)
made-Ends registered initialize conf (err (init_failed name), trace) x = x
made-Ends registered initialize conf (err (unknown_resolver name), trace) x = x

-- A server is made with the enabled resolvers in the order of the configuration, each initialized
-- once. If one fails to initialize, all those initialized before it are destroyed again. If
-- one is not registered, those initialized before it stay as they are.
pub new_server-Ends :
    (registered : Str → Bool) (initialize : ConfigEntry → Bool) (conf : ResolverConfig)
    → ServerEnds registered (enabled conf.resolvers) (new_server registered initialize conf)
unfolding new_server
new_server-Ends registered initialize conf =
    made-Ends registered initialize conf
      (build_resolvers registered initialize conf.resolvers [] [])
      (build_resolvers-Ends registered initialize conf.resolvers [] [] (unfold init_all in refl))

of_ok : (a b : Server) → ok a ≡ ok b → a ≡ b
of_ok a b h = cc

-- A server that is made has two DNS servers, and was not destroyed.
abbrev IsFresh : Server → Type 0
IsFresh svr =
    (shut_down_all svr.dns_sever_list ≡ shut_down udp ∷ shut_down tcp ∷ []) × (svr.once ≡ false)

make_server-IsFresh :
    (registered : Str → Bool) (initialize : ConfigEntry → Bool) (conf : ResolverConfig)
    (r : Result (List Str)) (svr : Server)
    → make_server registered initialize conf r ≡ ok svr
    → IsFresh svr
unfolding make_server shut_down_all
make_server-IsFresh registered initialize conf (err e) svr h = cc
make_server-IsFresh registered initialize conf (ok handlers) svr h =
    subst IsFresh (of_ok _ svr h) (refl, refl)

new_server-IsFresh :
    (registered : Str → Bool) (initialize : ConfigEntry → Bool) (conf : ResolverConfig)
    (svr : Server) (trace : List Event)
    → new_server registered initialize conf ≡ (ok svr, trace)
    → IsFresh svr
unfolding new_server
new_server-IsFresh registered initialize conf svr trace h =
    make_server-IsFresh registered initialize conf _ svr (ap (λ t. t.0) h)

-- What so many calls of `Destroy` do, one after the other.
unfoldable pub destroy_times : ℕ → Server → List Event
unfolding destroy
destroy_times zero svr = []
destroy_times (suc n) svr = let (svr', trace) = destroy svr in trace ++ destroy_times n svr'

destroy_again : (n : ℕ) (svr : Server) → svr.once ≡ true → destroy_times n svr ≡ []
unfolding destroy_times destroy
destroy_again zero svr e = refl
destroy_again (suc n) svr e = rw e (destroy_again n (record svr { once = true }) refl)

destroy_fresh :
    (n : ℕ) (svr : Server)
    → svr.once ≡ false
    → destroy_times (suc n) svr ≡ shut_down_all svr.dns_sever_list ++ destroy_all svr.resolvers
unfolding destroy_times destroy
destroy_fresh n svr e =
    rw (e, destroy_again n (record svr { once = true }) refl)
      (append-nil (shut_down_all svr.dns_sever_list ++ destroy_all svr.resolvers))

-- Each resolver of a server that is made was initialized once, and however often `Destroy` is
-- called, from the first call on, both DNS servers are shut down and each of these resolvers is
-- destroyed once in all, in their order.
pub new_server-destroy :
    (registered : Str → Bool) (initialize : ConfigEntry → Bool) (conf : ResolverConfig)
    (svr : Server) (trace : List Event) (n : ℕ)
    → new_server registered initialize conf ≡ (ok svr, trace)
    → (trace ≡ init_all (enabled conf.resolvers))
      × (destroy_times (suc n) svr
          ≡ shut_down udp ∷ shut_down tcp ∷ destroy_all (enabled conf.resolvers))
new_server-destroy registered initialize conf svr trace n h =
    let ends =
      subst (ServerEnds registered (enabled conf.resolvers)) h
        (new_server-Ends registered initialize conf) in
    let (shut, once) = new_server-IsFresh registered initialize conf svr trace h in
    (
      ends.2,
      destroy_fresh n svr once
          ∙ ap (λ t. t ++ destroy_all svr.resolvers) shut
          ∙ ap (λ t. shut_down udp ∷ shut_down tcp ∷ destroy_all t) ends.0,
    )
