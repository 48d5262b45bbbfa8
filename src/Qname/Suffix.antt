-- ===== src/Qname/Suffix.antt =====
-- The suffix test `MatchSuffix` of pkg/utils/util.go, and the trailing dot.
use polaris_sidecar.Prelude.{
  Bool-cases, ap, append_assoc, false, inl, inr, is_empty, not, subst, sym, true, ◌++◌, ◌∙◌, ◌≡◌,
  ◌≢◌, ◌⊎◌,
}
use polaris_sidecar.Prelude.Text.{
  Str, cut_end, cut_end-append, has_suffix, has_suffix-append, has_suffix_split,
}
use polaris_sidecar.Qname.{add_quota, dot, match_suffix}

pub has_suffix-add_quota : (s : Str) → has_suffix (add_quota s) dot ≡ true
unfolding add_quota
has_suffix-add_quota s = elim (Bool-cases (has_suffix s dot)) [
  | inl e ↦ rw (e, not) e
  | inr e ↦ rw (e, not) (has_suffix-append s dot)
]

-- A name that ends in a dot is left as it is.
pub add_quota-of_dot : (s : Str) → has_suffix s dot ≡ true → add_quota s ≡ s
unfolding add_quota
add_quota-of_dot s h = rw (h, not)

has_suffix-append_right : (p s : Str) → has_suffix s dot ≡ true → has_suffix (p ++ s) dot ≡ true
has_suffix-append_right p s h =
    subst (λ t. has_suffix t dot ≡ true)
      (append_assoc p (cut_end s dot) dot ∙ ap (λ t. p ++ t) (has_suffix_split s dot h))
      (has_suffix-append (p ++ cut_end s dot) dot)

-- `MatchSuffix` accepts a name that ends in the suffix, with its final dot, and cuts it off.
pub match_suffix-append :
    (p x : Str) → is_empty x ≡ false → match_suffix (p ++ add_quota x) x ≡ (p, true)
unfolding match_suffix
match_suffix-append p x h = rw (
  h,
  add_quota-of_dot _ (has_suffix-append_right p (add_quota x) (has_suffix-add_quota x)),
  has_suffix-append p (add_quota x),
  cut_end-append p (add_quota x),
)

-- `MatchSuffix` succeeds exactly on the names that end in the suffix, both with their final dot,
-- and what it returns is the text before the suffix.
pub match_suffix_lem :
    (q x : Str)
    → is_empty x ≡ false
    → (((match_suffix q x).1 ≡ true) × (add_quota q ≡ (match_suffix q x).0 ++ add_quota x))
      ⊎ (((match_suffix q x).1 ≡ false)
          × ((match_suffix q x).0 ≡ add_quota q)
          × ((p : Str) → add_quota q ≢ p ++ add_quota x))
unfolding match_suffix
match_suffix_lem q x h = elim (Bool-cases (has_suffix (add_quota q) (add_quota x))) [
  | inl e ↦ inl (rw (h, e), rw (h, e) (sym (has_suffix_split (add_quota q) (add_quota x) e)))
  | inr e ↦ inr (
    rw (h, e),
    rw (h, e),
    λ p k. cc (ap (λ t. has_suffix t (add_quota x)) k, has_suffix-append p (add_quota x)),
  )
]
