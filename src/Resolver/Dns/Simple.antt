-- ===== src/Resolver/Dns/Simple.antt =====
-- A small stand-in for miekg/dns, which shows that what is assumed of it can hold: names are
-- split at their dots, and no message is too long.
use polaris_sidecar.Prelude.{
  Bool-cases, List, Option, [], append-nil, if◌then◌else◌, inl, inr, is_empty, none, refl, some,
  sym, true, ◌++◌, ◌∷◌, ◌≡◌,
}
use polaris_sidecar.Prelude.Split.{split-append, split_nonempty}
use polaris_sidecar.Prelude.Text.{Lacks, Str, has_suffix, split}
use polaris_sidecar.Resolver.Dns.{DnsLaws, DnsLib, Msg, NameLaws, Opt, Rr, opt_record}

drop_final : List Str → List Str
drop_final [] = []
drop_final (p ∷ []) = if is_empty p then [] else p ∷ []
drop_final (p ∷ q ∷ ps) = p ∷ drop_final (q ∷ ps)

find_opt : List (Option Rr) → Option Opt
find_opt (some (opt_record o) ∷ rs) = some o
find_opt (r ∷ rs) = find_opt rs
find_opt [] = none

simple_reply : Msg → Msg → Msg
simple_reply m r = record m {
  id = r.id;
  response = true;
  recursion_desired = r.recursion_desired;
  rcode = 0;
  question = r.question;
}

unfoldable pub simple_lib : DnsLib
unfolding drop_final find_opt simple_reply
simple_lib = record {
  set_reply = simple_reply;
  truncate = λ n m. m;
  is_edns0 = λ m. find_opt m.extra;
  fqdn = λ s. if has_suffix s (b'.' ∷ []) then s else s ++ b'.' ∷ [];
  split_domain_name = λ s. drop_final (split b'.' s);
}

pub simple_laws : DnsLaws simple_lib
unfolding simple_lib simple_reply
simple_laws = record {
  set_reply_id = λ m r. refl;
  set_reply_response = λ m r. refl;
  set_reply_answer = λ m r. refl;
  truncate_id = λ n m. refl;
  truncate_response = λ n m. refl;
  truncate_rcode = λ n m. refl;
  truncate_authoritative = λ n m. refl;
  truncate_recursion = λ n m. refl;
  truncate_answer = λ n m. ([], sym (append-nil m.answer));
}

simple_split :
    (p s : Str)
    → Lacks b'.' p
    → drop_final (split b'.' (p ++ b'.' ∷ s)) ≡ p ∷ drop_final (split b'.' s)
unfolding drop_final
simple_split p s h =
    let (q, ps, e) = split_nonempty b'.' s in rw (split-append b'.' p s h, e, drop_final)

pub simple_names : NameLaws simple_lib
unfolding simple_lib
simple_names = record {
  split_label = λ p s ne h k st. simple_split p s h;
  fqdn_lem =
      λ s. elim (Bool-cases (has_suffix s (b'.' ∷ []))) [ inl e ↦ inl (rw e) | inr e ↦ inr (rw e) ];
}
