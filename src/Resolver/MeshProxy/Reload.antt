-- ===== src/Resolver/MeshProxy/Reload.antt =====
-- The reload loop of internal/resolver/meshproxy/plugin.go: a table is rebuilt only if the set of
-- services changed, and still always shows the services that were listed last.
use polaris_sidecar.Prelude.{
  Bool, Bool-cases, List, Option, Option-cases, [], ap, arith, false, inl, inr, none, refl, some,
  subst, sym, true, ◌++◌, ◌∙◌, ◌∷◌, ◌≡◌,
}
use polaris_sidecar.Prelude.Sets.{Distinct, add-Distinct, member, member_subst, same_set}
use polaris_sidecar.Prelude.Text.{Str, str_eq, str_eq_iff, str_eq_refl, to_lower}
use polaris_sidecar.Qname.{ServiceKey, dot}
use polaris_sidecar.Resolver.Dns.{Addr}
use polaris_sidecar.Resolver.MeshProxy.{
  LocalDnsServer, ResolverMesh, any_missing, get_current_ns_service, if_service_list_changed,
  reload, reload_with, run, serve_local, service_names, take_over,
}
use polaris_sidecar.Resolver.MeshProxy.Serve.{Reflects, reply_for, update-Reflects}
use polaris_sidecar.Resolver.MeshProxy.Table.{hosts}

abbrev pub Listing : Type 0
Listing = Str → Option (List ServiceKey)

abbrev after : Option (List Str) → List Str → List Str
after none last = last
after (some services) last = services

-- The services of the last round that did not fail.
unfoldable pub last_listed : List Listing → Str → List Str → List Str
last_listed [] business last = last
last_listed (get_services ∷ rounds) business last =
    last_listed rounds business (after (get_current_ns_service get_services business) last)

service_names-Distinct : (svcs : List ServiceKey) → Distinct (service_names svcs)
unfolding service_names
service_names-Distinct [] = tt
service_names-Distinct (svc ∷ svcs) = add-Distinct _ _ (service_names-Distinct svcs)

any_missing-false :
    (xs ys : List Str)
    → any_missing xs ys ≡ false
    → (k : Str) → member k xs ≡ true
    → member k ys ≡ true
unfolding any_missing member
any_missing-false [] ys h k e = cc
any_missing-false (x ∷ xs) ys h k e =
    ground (arith, any_missing-false xs ys (ground arith) k, member_subst x k ys)

-- Two lists hold the same names.
abbrev SameSet : List Str → List Str → Type 0
SameSet xs ys = (k : Str) → member k xs ≡ member k ys

both_ways : (a b : Bool) → (a ≡ true → b ≡ true) → (b ≡ true → a ≡ true) → a ≡ b
both_ways true b f g = sym (f refl)
both_ways false true f g = g refl
both_ways false false f g = refl

unchanged-SameSet :
    (xs ys : List Str) → Distinct xs → if_service_list_changed xs ys ≡ false → SameSet xs ys
unfolding if_service_list_changed member
unchanged-SameSet [] [] d h k = refl
unchanged-SameSet [] (y ∷ ys) d h k = ground arith
unchanged-SameSet (x ∷ xs) ys d h k =
    let within = any_missing-false (x ∷ xs) ys (ground arith) in
    both_ways _ _ (within k) (same_set (x ∷ xs) ys d (ground arith) within k)

host_of_member :
    (k : Str) (ys : List Str) → member k ys ≡ true → member (to_lower (k ++ dot)) (hosts ys) ≡ true
unfolding hosts member
host_of_member k [] h = cc
host_of_member k (y ∷ ys) h = elim (Bool-cases (str_eq y k)) [
  | inl e ↦ rw (
    ap (λ t. str_eq (to_lower (t ++ dot)) (to_lower (k ++ dot))) ((str_eq_iff y k).0 e),
    str_eq_refl (to_lower (k ++ dot)),
  )
  | inr e ↦ ground (arith, host_of_member k ys)
]

hosts_mono :
    (xs ys : List Str)
    → ((k : Str) → member k xs ≡ true → member k ys ≡ true)
    → (h : Str) → member h (hosts xs) ≡ true
    → member h (hosts ys) ≡ true
unfolding hosts member
hosts_mono [] ys s h e = cc
hosts_mono (x ∷ xs) ys s h e = elim (Bool-cases (str_eq (to_lower (x ++ dot)) h)) [
  | inl p ↦ sym (member_subst _ h (hosts ys) p) ∙ host_of_member x ys (s x (rw (str_eq_refl x)))
  | inr p ↦ hosts_mono xs ys (λ k m. s k (ground arith)) h (ground arith)
]

SameSet-hosts : (xs ys : List Str) → SameSet xs ys → SameSet (hosts xs) (hosts ys)
SameSet-hosts xs ys s h =
    both_ways _ _ (hosts_mono xs ys (λ k e. sym (s k) ∙ e) h) (hosts_mono ys xs (λ k e. s k ∙ e) h)

Reflects-SameSet :
    (ip : Addr) (server : LocalDnsServer) (xs ys : List Str)
    → SameSet xs ys
    → Reflects ip server xs
    → Reflects ip server ys
Reflects-SameSet ip server xs ys s h = record {
  at_name = λ question qname.
      h.at_name question qname
      ∙ ap (λ b. reply_for b question ip server.dns_ttl) (SameSet-hosts xs ys s (to_lower qname));
}

-- Between two rounds: the services taken over are distinct, and the table shows those listed last.
pub record Inv (ip : Addr) (last : List Str) (r : ResolverMesh) (current : List Str) : Type 0 where
  pub distinct : Distinct current
  pub same : SameSet current last
  pub shown : Reflects ip r.local_dns_server last

module _ (parse_ip : Str → Addr) (ip : Addr) where
  reload_with-Inv :
      (r : ResolverMesh) (current last services : List Str)
      → parse_ip r.options.dns_answer_ip ≡ ip
      → Distinct services
      → Inv ip last r current
      → Inv ip services
          (reload_with parse_ip r current services).0
          (reload_with parse_ip r current services).1
  unfolding reload_with
  reload_with-Inv r current last services p d v =
      elim (Bool-cases (if_service_list_changed current services)) [
        | inl e ↦
            rw (e, p)
              (record {
                distinct = d;
                same = λ k. refl;
                shown = update-Reflects r.local_dns_server services ip;
              })
        | inr e ↦
            let same = unchanged-SameSet current services v.distinct e in
            rw e (record {
              distinct = v.distinct;
              same = same;
              shown =
                  Reflects-SameSet ip r.local_dns_server last services
                    (λ k. sym (v.same k) ∙ same k) v.shown;
            })
      ]

  take_over-Inv :
      (listed : Option (List Str)) (r : ResolverMesh) (current last : List Str)
      → parse_ip r.options.dns_answer_ip ≡ ip
      → ((services : List Str) → listed ≡ some services → Distinct services)
      → Inv ip last r current
      → Inv ip
          (after listed last)
          (take_over parse_ip listed r current).0
          (take_over parse_ip listed r current).1
  unfolding take_over
  take_over-Inv none r current last p d v = v
  take_over-Inv (some services) r current last p d v =
      reload_with-Inv r current last services p (d services refl) v

  options-take_over :
      (listed : Option (List Str)) (r : ResolverMesh) (current : List Str)
      → (take_over parse_ip listed r current).0.options ≡ r.options
  unfolding take_over reload_with
  options-take_over listed r current = ground arith

  listed-Distinct :
      (get_services : Listing) (business : Str) (services : List Str)
      → get_current_ns_service get_services business ≡ some services
      → Distinct services
  unfolding get_current_ns_service
  listed-Distinct get_services business services e = elim (Option-cases (get_services [])) [
    | inl f ↦ absurd (ground arith)
    | inr (svcs, f) ↦
        let g : service_names svcs ≡ services = ground arith in
        subst Distinct g (service_names-Distinct svcs)
  ]

  run-Inv :
      (rounds : List Listing) (r : ResolverMesh) (current last : List Str)
      → parse_ip r.options.dns_answer_ip ≡ ip
      → Inv ip last r current
      → Reflects ip
          (run parse_ip rounds r current).0.local_dns_server
          (last_listed rounds r.options.filter_by_business last)
  unfolding run reload last_listed
  run-Inv [] r current last p v = v.shown
  run-Inv (get_services ∷ rounds) r current last p v =
      let business = r.options.filter_by_business in
      let listed = get_current_ns_service get_services business in
      let (r', current') = take_over parse_ip listed r current in
      let kept = options-take_over listed r current in
      let rest =
        run-Inv rounds r' current' (after listed last) (ap (λ o. parse_ip o.dns_answer_ip) kept ∙ p)
          (take_over-Inv listed r current last p (listed-Distinct get_services business) v) in
      subst
        (λ o.
          Reflects ip (run parse_ip rounds r' current').0.local_dns_server
            (last_listed rounds o.filter_by_business (after listed last)))
        kept rest

fresh-Reflects :
    (ip : Addr) (server : LocalDnsServer) → server.lookup_table ≡ none → Reflects ip server []
unfolding serve_local hosts member
fresh-Reflects ip server e = record { at_name = λ question qname. rw (e, serve_local) }

-- A resolver with no table yet, as `Initialize` leaves it, serves after any rounds of its loop
-- exactly the services of the last round in which Polaris answered, whichever rounds rebuilt the
-- table, and none before the first.
pub run-Reflects :
    (parse_ip : Str → Addr) (rounds : List Listing) (r : ResolverMesh)
    → r.local_dns_server.lookup_table ≡ none
    → Reflects
        (parse_ip r.options.dns_answer_ip)
        (run parse_ip rounds r []).0.local_dns_server
        (last_listed rounds r.options.filter_by_business [])
run-Reflects parse_ip rounds r e =
    run-Inv parse_ip (parse_ip r.options.dns_answer_ip) rounds r [] [] refl (record {
      distinct = tt;
      same = λ k. refl;
      shown = fresh-Reflects (parse_ip r.options.dns_answer_ip) r.local_dns_server e;
    })
