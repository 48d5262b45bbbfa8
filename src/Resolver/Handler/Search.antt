-- ===== src/Resolver/Handler/Search.antt =====
-- `Preprocess` of internal/resolver/handler.go, which takes a search domain off a query name.
use polaris_sidecar.Prelude.{
  All, Bool-cases, List, [], ap, false, if◌then◌else◌, inl, inr, is_empty, refl, some, sym, true,
  ◌++◌, ◌∙◌, ◌∷◌, ◌≡◌, ◌≢◌, ◌⊎◌,
}
use polaris_sidecar.Prelude.Text.{Str, cut_end, has_suffix, has_suffix-append, has_suffix_split}
use polaris_sidecar.Qname.{add_quota}
use polaris_sidecar.Resolver.Handler.{preprocess, strip_search, with_dot}
use polaris_sidecar.Resolver.Recursor.Proxy.{Proxy}

pub with_dot-eq-add_quota : (s : Str) → with_dot s ≡ add_quota s
unfolding with_dot add_quota
with_dot-eq-add_quota s = refl

-- The name does not end in the search domain.
abbrev pub Misses : Str → Str → Type 0
Misses qname s = (p : Str) → p ++ add_quota s ≢ qname

misses : (qname s : Str) → has_suffix qname (with_dot s) ≡ false → Misses qname s
misses qname s e p h = cc (
  e,
  with_dot-eq-add_quota s,
  ap (λ t. has_suffix t (add_quota s)) h,
  has_suffix-append p (add_quota s),
)

-- The name loses the first search domain that it ends in, if something is left.
abbrev pub Stripped : List Str → Str → Str → Type 0
Stripped domains qname result =
    (All (Misses qname) domains × (result ≡ qname))
    ⊎ ((before : List Str) × (s : Str) × (after : List Str) × (rest : Str) × (domains
          ≡ before ++ s ∷ after)
        × All (Misses qname) before
        × (rest ++ add_quota s ≡ qname)
        × (result ≡ (if is_empty rest then qname else rest)))

Stripped-later :
    (s : Str) (domains : List Str) (qname result : Str)
    → Misses qname s
    → Stripped domains qname result
    → Stripped (s ∷ domains) qname result
Stripped-later s domains qname result m (inl (h, e)) = inl ((m, h), e)
Stripped-later s domains qname result m (inr (before, t, after, rest, d, h, e, f)) =
    inr (s ∷ before, t, after, rest, ap (λ l. s ∷ l) d, (m, h), e, f)

strip_search-Stripped :
    (domains : List Str) (qname : Str) → Stripped domains qname (strip_search domains qname)
unfolding strip_search
strip_search-Stripped [] qname = inl (tt, refl)
strip_search-Stripped (s ∷ domains) qname = elim (Bool-cases (has_suffix qname (with_dot s))) [
  | inl e ↦ inr (
    [],
    s,
    domains,
    cut_end qname (with_dot s),
    refl,
    tt,
    ap (λ t. cut_end qname (with_dot s) ++ t) (sym (with_dot-eq-add_quota s))
        ∙ has_suffix_split qname (with_dot s) e,
    rw e refl,
  )
  | inr e ↦ rw e (
      Stripped-later s domains qname (strip_search domains qname) (misses qname s e)
        (strip_search-Stripped domains qname))
]

no_search :
    (domains : List Str) (qname : Str) → is_empty domains ≡ true → Stripped domains qname qname
no_search [] qname e = inl (tt, refl)
no_search (s ∷ domains) qname e = cc

-- A fallback that is configured takes from the name the first of its search domains, with a final
-- dot, that the name ends in. A name that ends in none of them, or of which nothing would be left,
-- stays as it is.
pub preprocess_lem :
    (p : Proxy) (qname : Str) → Stripped p.config.search qname (preprocess (some p) qname)
unfolding preprocess
preprocess_lem p qname = elim (Bool-cases (is_empty p.config.search)) [
  | inl e ↦ rw e (no_search p.config.search qname e)
  | inr e ↦ rw e (strip_search-Stripped p.config.search qname)
]
