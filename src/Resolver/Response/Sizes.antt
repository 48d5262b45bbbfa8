-- ===== src/Resolver/Response/Sizes.antt =====
-- The reply size and the EDNS record of internal/resolver/common/dns.go.
use polaris_sidecar.Prelude.{
  Bool, List, Option, Option-cases, [], arith, false, if◌then◌else◌, inl, inr, none, refl, some,
  true, ℕ, ◌++◌, ◌+◌, ◌<◌, ◌∷◌, ◌≡◌, ◌≤◌,
}
use polaris_sidecar.Prelude.Text.{Str, str_eq}
use polaris_sidecar.Resolver.Dns.{
  DnsLib, Msg, Opt, Rr, Subnet, a_record, aaaa_record, edns0_subnet, opt_record, other_record,
  srv_record, subnet_option, tcp, type_opt,
}
use polaris_sidecar.Resolver.DnsAgent.Answers.{request}
use polaris_sidecar.Resolver.Response.{
  edns_size, edns_subnet_for_request, find_subnet, globally_valid, set_edns,
}

-- Over TCP a reply may take the largest size. Over UDP it is at least 512 bytes, and at least
-- what the request advertises. It fits 16 bits if the advertised size does.
pub edns_size_bounds :
    (proto : Str) (n : ℕ)
    → n < 65536
    → (512 ≤ edns_size proto n)
      × (n ≤ edns_size proto n)
      × (edns_size proto n < 65536)
      × (str_eq proto tcp ≡ true → edns_size proto n ≡ 65535)
      × (str_eq proto tcp ≡ false → 512 ≤ n → edns_size proto n ≡ n)
unfolding edns_size
edns_size_bounds proto n h =
    (ground arith, ground arith, ground arith, (λ e. ground arith), λ e k. ground arith)

abbrev pub is_opt : Option Rr → Bool
is_opt (some (opt_record o)) = true
is_opt (some (a_record h x)) = false
is_opt (some (aaaa_record h x)) = false
is_opt (some (srv_record h p w q t)) = false
is_opt (some (other_record h)) = false
is_opt none = false

-- How many OPT records a section holds.
pub count_opts : List (Option Rr) → ℕ
count_opts [] = 0
count_opts (r ∷ rs) = (if is_opt r then 1 else 0) + count_opts rs

count_opts-append :
    (xs ys : List (Option Rr)) → count_opts (xs ++ ys) ≡ count_opts xs + count_opts ys
unfolding count_opts
count_opts-append [] ys = omega arith
count_opts-append (x ∷ xs) ys = omega (arith, count_opts-append xs ys)

abbrev pub opts_due : Option Opt → ℕ
opts_due none = 0
opts_due (some o) = 1

module _ (lib : DnsLib) where
  -- One OPT record is added if the request has one, and none otherwise; the rest of the reply,
  -- its answers and its code among it, stays.
  pub set_edns_lem :
      (request response : Msg) (ecs_global : Bool)
      → (count_opts (set_edns lib request response ecs_global).extra
          ≡ count_opts response.extra + opts_due (lib.is_edns0 request))
        × ((set_edns lib request response ecs_global).answer ≡ response.answer)
        × ((set_edns lib request response ecs_global).rcode ≡ response.rcode)
        × ((set_edns lib request response ecs_global).id ≡ response.id)
        × ((set_edns lib request response ecs_global).authoritative ≡ response.authoritative)
        × ((set_edns lib request response ecs_global).response ≡ response.response)
        × ((set_edns lib request response ecs_global).recursion_available
            ≡ response.recursion_available)
  unfolding set_edns count_opts
  set_edns_lem request response ecs_global = elim (Option-cases (lib.is_edns0 request)) [
    | inl e ↦ rw (e, set_edns) (omega arith, refl, refl, refl, refl, refl, refl)
    | inr (o, e) ↦
        rw (e, set_edns, count_opts-append) (omega arith, refl, refl, refl, refl, refl, refl)
  ]

  subnet_of :
      (request : Msg) {o : Opt}
      → lib.is_edns0 request ≡ some o
      → edns_subnet_for_request lib request ≡ find_subnet o.options
  unfolding edns_subnet_for_request
  subnet_of request e = rw (e, edns_subnet_for_request)

  -- The reply to a request with a client subnet carries that subnet back, valid everywhere if
  -- this is asked for or the code is one of the four errors, and for the subnet asked for
  -- otherwise; its OPT record repeats the advertised size.
  pub set_edns_subnet :
      (request response : Msg) (ecs_global : Bool) (o : Opt) (s : Subnet)
      → lib.is_edns0 request ≡ some o
      → find_subnet o.options ≡ some s
      → (set_edns lib request response ecs_global).extra
        ≡ response.extra
          ++ some (
              opt_record (record {
                name = b'.' ∷ [];
                rrtype = type_opt;
                udp_size = o.udp_size;
                options =
                    subnet_option (record {
                      code = edns0_subnet;
                      family = s.family;
                      source_netmask = s.source_netmask;
                      source_scope =
                          if globally_valid ecs_global response.rcode then 0 else s.source_netmask;
                      address = s.address;
                    })
                    ∷ [];
              }))
            ∷ []
  unfolding set_edns
  set_edns_subnet request response ecs_global o s e k = rw (e, set_edns, subnet_of request e, k)
