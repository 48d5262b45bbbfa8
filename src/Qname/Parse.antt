-- ===== src/Qname/Parse.antt =====
-- `ParseQname` of pkg/utils/util.go: which service a query name stands for.
use polaris_sidecar.Prelude.{
  Bool, Bool-cases, [], ap, append-nil, arith, drop, false, inl, inr, is_empty, length,
  length-append, none, not, refl, some, suc, take-length_append, true, ℕ, ◌++◌, ◌+◌, ◌<◌, ◌↔◌, ◌∙◌,
  ◌∷◌, ◌≡◌, ◌≢◌, ◌⊎◌,
}
use polaris_sidecar.Prelude.Text.{
  Lacks, Str, codes, cut_end, cut_end-append, has_suffix, has_suffix-append, has_suffix_split,
  last_index, last_index-Lacks, last_index-append, str_eq, str_eq_iff, to_lower,
}
use polaris_sidecar.Qname.{
  ServiceKey, add_quota, dot, parse_qname, remove_quota, resolve_namespace, split_name,
}
use polaris_sidecar.Qname.Suffix.{match_suffix-append, match_suffix_lem}

-- One optional dot at the end of a name.
abbrev pub trailing : Bool → Str
trailing true = dot
trailing false = []

positive_length : (ns : Str) → is_empty ns ≡ false → 0 < length ns
positive_length [] h = cc
positive_length (c ∷ ns) h = omega arith

no_final_dot :
    (p ns : Str) → is_empty ns ≡ false → Lacks b'.' ns → has_suffix (p ++ b'.' ∷ ns) dot ≡ false
no_final_dot p ns ne h = elim (Bool-cases (has_suffix (p ++ b'.' ∷ ns) dot)) [
  | inr e ↦ e
  | inl e ↦
      let s = p ++ b'.' ∷ ns in
      let whole = has_suffix_split s dot e in
      let here = last_index-append b'.' (cut_end s dot) [] tt in
      let same = ap (last_index b'.') whole in
      let there = last_index-append b'.' p ns h in
      let ends : length (cut_end s dot) ≡ length p = ground (arith, here, same, there) in
      absurd (
        omega (
          arith,
          ends,
          ap length whole,
          length-append (cut_end s dot) dot,
          length-append p (b'.' ∷ ns),
          positive_length ns ne,
        ))
]

pub remove_quota-trailing :
    (p : Str) (t : Bool) → has_suffix p dot ≡ false → remove_quota (p ++ trailing t) ≡ p
unfolding remove_quota
remove_quota-trailing p true h = rw (has_suffix-append p dot) (cut_end-append p dot)
remove_quota-trailing p false h = rw (append-nil p, h)

Lacks-no_final_dot : (s : Str) → Lacks b'.' s → has_suffix s dot ≡ false
Lacks-no_final_dot s h = elim (Bool-cases (has_suffix s dot)) [
  | inr e ↦ e
  | inl e ↦ cc (
    last_index-Lacks b'.' s h,
    last_index-append b'.' (cut_end s dot) [] tt,
    ap (last_index b'.') (has_suffix_split s dot e),
  )
]

drop_past : (c : ℕ) (p q : Str) → drop (length p + 1) (p ++ c ∷ q) ≡ q
drop_past c [] q = refl
drop_past c (x ∷ p) q =
    let e : suc (length p) + 1 ≡ suc (length p + 1) = omega arith in
    ap (λ n. drop n (x ∷ p ++ c ∷ q)) e ∙ drop_past c p q

module _ (server_namespace : Str) where
  parse_qname-matched :
      (p x current_ns : Str)
      → is_empty x ≡ false
      → parse_qname server_namespace (p ++ add_quota x) x current_ns
        ≡ some (split_name server_namespace current_ns (remove_quota p))
  unfolding parse_qname
  parse_qname-matched p x current_ns h = rw (match_suffix-append p x h, parse_qname, not)

  split_name-qualified :
      (service ns current_ns : Str)
      → Lacks b'.' ns
      → split_name server_namespace current_ns (service ++ b'.' ∷ ns)
        ≡ record { namespace = resolve_namespace server_namespace ns; service = service }
  unfolding split_name
  split_name-qualified service ns current_ns h = rw (
    last_index-append b'.' service ns h,
    split_name,
    drop_past b'.' service ns,
    take-length_append service (b'.' ∷ ns),
  )

  split_name-unqualified :
      (service current_ns : Str)
      → Lacks b'.' service
      → split_name server_namespace current_ns service
        ≡ record { namespace = current_ns; service = service }
  unfolding split_name
  split_name-unqualified service current_ns h = rw (last_index-Lacks b'.' service h, split_name)

  -- The key that a service and the text of a namespace stand for.
  abbrev key_of : Str → Str → ServiceKey
  key_of service ns = record {
    namespace = resolve_namespace server_namespace ns;
    service = service;
  }

  key_of_lem :
      (service ns : Str)
      → ((to_lower ns ≡ codes "polaris")
          × (key_of service ns ≡ record { namespace = server_namespace; service = service }))
        ⊎ ((to_lower ns ≢ codes "polaris")
            × (key_of service ns ≡ record { namespace = ns; service = service }))
  unfolding resolve_namespace
  key_of_lem service ns = elim (Bool-cases (str_eq (to_lower ns) (codes "polaris"))) [
    | inl e ↦ inl ((str_eq_iff (to_lower ns) (codes "polaris")).0 e, rw e)
    | inr e ↦ inr ((λ h. cc (e, (str_eq_iff (to_lower ns) (codes "polaris")).1 h)), rw e)
  ]

  -- A query `<service>.<namespace>.<suffix>`, with or without a dot before the suffix, names that
  -- service, whatever dots it has: in the server's own namespace if the namespace is `polaris`, in
  -- any case, and else in the namespace as it is written.
  pub parse_qname-qualified :
      (service ns x current_ns : Str) (t : Bool)
      → is_empty x ≡ false
      → is_empty ns ≡ false
      → Lacks b'.' ns
      → let r =
          parse_qname server_namespace
            (((service ++ b'.' ∷ ns) ++ trailing t) ++ add_quota x)
            x
            current_ns in
        ((to_lower ns ≡ codes "polaris")
          × (r ≡ some (record { namespace = server_namespace; service = service })))
        ⊎ ((to_lower ns ≢ codes "polaris")
            × (r ≡ some (record { namespace = ns; service = service })))
  parse_qname-qualified service ns x current_ns t hx hn hl =
      let e =
        parse_qname-matched ((service ++ b'.' ∷ ns) ++ trailing t) x current_ns hx
        ∙ ap (λ n. some (split_name server_namespace current_ns n))
            (remove_quota-trailing (service ++ b'.' ∷ ns) t (no_final_dot service ns hn hl))
        ∙ ap some (split_name-qualified service ns current_ns hl) in
      elim (key_of_lem service ns) [
        | inl (h, k) ↦ inl (h, e ∙ ap some k)
        | inr (h, k) ↦ inr (h, e ∙ ap some k)
      ]

  -- A query with no dot before the suffix, but for a final one, names a service of the current
  -- namespace.
  pub parse_qname-unqualified :
      (service x current_ns : Str) (t : Bool)
      → is_empty x ≡ false
      → Lacks b'.' service
      → parse_qname server_namespace ((service ++ trailing t) ++ add_quota x) x current_ns
        ≡ some (record { namespace = current_ns; service = service })
  parse_qname-unqualified service x current_ns t hx hl =
      parse_qname-matched (service ++ trailing t) x current_ns hx
      ∙ ap (λ n. some (split_name server_namespace current_ns n))
          (remove_quota-trailing service t (Lacks-no_final_dot service hl))
      ∙ ap some (split_name-unqualified service current_ns hl)

  -- `ParseQname` fails exactly on the names that do not end in the suffix.
  pub parse_qname-none :
      (q x current_ns : Str)
      → is_empty x ≡ false
      → (parse_qname server_namespace q x current_ns ≡ none)
        ↔ ((p : Str) → add_quota q ≢ p ++ add_quota x)
  unfolding parse_qname
  parse_qname-none q x current_ns h = elim (match_suffix_lem q x h) [
    | inl (e, k) ↦ ((λ r. cc), λ r. absurd (r _ k))
    | inr (e, k, r) ↦ ((λ s. r), λ s. rw (e, parse_qname, not))
  ]
