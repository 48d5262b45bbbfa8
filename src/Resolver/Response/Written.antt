-- ===== src/Resolver/Response/Written.antt =====
-- The replies that `WriteDnsCode` and `WriteDnsResponse` write.
use polaris_sidecar.Prelude.{List, Option, [], ap, refl, sym, true, ℕ, ◌++◌, ◌∙◌, ◌∷◌, ◌≡◌}
use polaris_sidecar.Prelude.Text.{Str}
use polaris_sidecar.Resolver.Dns.{DnsLaws, DnsLib, Msg, Rr, empty_msg}
use polaris_sidecar.Resolver.Response.{set_edns, size, write_dns_code, write_dns_response}
use polaris_sidecar.Resolver.Response.Sizes.{set_edns_lem}

-- What the last steps of both functions, `Truncate` and `setEDNS`, make of a reply.
abbrev finish : DnsLib → Str → Msg → Msg → Msg
finish lib protocol r m = set_edns lib r (lib.truncate (size lib protocol r) m) true

append-eq-nil {ℓ} : {A : Type ℓ} (xs ys : List A) → [] ≡ xs ++ ys → xs ≡ []
append-eq-nil [] ys h = refl
append-eq-nil (x ∷ xs) ys h = cc

module _ (lib : DnsLib) (laws : DnsLaws lib) where
  -- These keep the fields of the header, and cut answers off at the end only.
  finish_lem :
      (protocol : Str) (r m : Msg)
      → ((finish lib protocol r m).id ≡ m.id)
        × ((finish lib protocol r m).response ≡ m.response)
        × ((finish lib protocol r m).rcode ≡ m.rcode)
        × ((finish lib protocol r m).authoritative ≡ m.authoritative)
        × ((finish lib protocol r m).recursion_available ≡ m.recursion_available)
        × ((rest : List (Option Rr)) × (m.answer ≡ (finish lib protocol r m).answer ++ rest))
  finish_lem protocol r m =
      let n = size lib protocol r in
      let (extra, answer, rcode, id, aa, response, ra) =
        set_edns_lem lib r (lib.truncate n m) true in
      let (rest, cut) = laws.truncate_answer n m in
      (
        id ∙ laws.truncate_id n m,
        response ∙ laws.truncate_response n m,
        rcode ∙ laws.truncate_rcode n m,
        aa ∙ laws.truncate_authoritative n m,
        ra ∙ laws.truncate_recursion n m,
        (rest, cut ∙ ap (λ a. a ++ rest) (sym answer)),
      )

  -- An error reply carries the request's identifier and the code, offers recursion and has no
  -- answer, where `SetReply` and `Truncate` do what miekg/dns promises.
  pub write_dns_code_lem :
      (protocol : Str) (r : Msg) (code : ℕ)
      → ((write_dns_code lib protocol r code).id ≡ r.id)
        × ((write_dns_code lib protocol r code).response ≡ true)
        × ((write_dns_code lib protocol r code).rcode ≡ code)
        × ((write_dns_code lib protocol r code).recursion_available ≡ true)
        × ((write_dns_code lib protocol r code).answer ≡ [])
  unfolding write_dns_code empty_msg
  write_dns_code_lem protocol r code =
      let m = record (lib.set_reply empty_msg r) {
        recursion_desired = true;
        recursion_available = true;
        rcode = code;
      } in
      let (id, response, rc, aa, ra, (rest, cut)) = finish_lem protocol r m in
      (
        id ∙ laws.set_reply_id empty_msg r,
        response ∙ laws.set_reply_response empty_msg r,
        rc,
        ra,
        append-eq-nil _ rest (sym (laws.set_reply_answer empty_msg r) ∙ cut),
      )

  -- A reply to a resolved query is authoritative and offers recursion, answers the request's
  -- identifier, and its answers are the resolver's, but for some that are cut off at the end. Its
  -- code is the one that `SetReply` leaves. `SetReply` and `Truncate` do what miekg/dns promises.
  pub write_dns_response_lem :
      (protocol : Str) (r msg : Msg)
      → ((write_dns_response lib protocol r msg).id ≡ r.id)
        × ((write_dns_response lib protocol r msg).response ≡ true)
        × ((write_dns_response lib protocol r msg).authoritative ≡ true)
        × ((write_dns_response lib protocol r msg).recursion_available ≡ true)
        × ((write_dns_response lib protocol r msg).rcode ≡ (lib.set_reply msg r).rcode)
        × ((rest : List (Option Rr)) × (msg.answer
              ≡ (write_dns_response lib protocol r msg).answer ++ rest))
  unfolding write_dns_response
  write_dns_response_lem protocol r msg =
      let m = record (lib.set_reply msg r) { authoritative = true; recursion_available = true } in
      let (id, response, rc, aa, ra, (rest, cut)) = finish_lem protocol r m in
      (
        id ∙ laws.set_reply_id msg r,
        response ∙ laws.set_reply_response msg r,
        aa,
        ra,
        rc,
        (rest, sym (laws.set_reply_answer msg r) ∙ cut),
      )
