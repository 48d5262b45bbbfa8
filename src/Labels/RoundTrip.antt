-- ===== src/Labels/RoundTrip.antt =====
-- Labels printed as `key1:value1,key2:value2` are read back.
use polaris_sidecar.Labels.{parse_labels, parse_tokens}
use polaris_sidecar.Prelude.{
  All, All-append, List, [], ap, arith, false, is_empty, refl, some, ℕ, ◌++◌, ◌∙◌, ◌∷◌, ◌≡◌, ◌≢◌,
}
use polaris_sidecar.Prelude.Assoc.{Assoc, insert}
use polaris_sidecar.Prelude.Split.{split-Lacks, split-append}
use polaris_sidecar.Prelude.Text.{Lacks, Str, split}

abbrev pub Label : Type 0
Label = Str × Str

abbrev pub print_label : Label → Str
print_label (k, v) = k ++ b':' ∷ v

-- The inverse of `ParseLabels`.
unfoldable pub print_labels : Label → List Label → Str
print_labels l [] = print_label l
print_labels l (m ∷ ms) = print_label l ++ b',' ∷ print_labels m ms

-- The labels stored one after the other.
unfoldable pub store_all : List Label → Assoc Str → Assoc Str
store_all [] values = values
store_all ((k, v) ∷ ls) values = store_all ls (insert k v values)

-- Neither separator occurs.
abbrev pub IsPlain : Str → Type 0
IsPlain s = Lacks b',' s × Lacks b':' s

abbrev pub IsPlainLabel : Label → Type 0
IsPlainLabel (k, v) = IsPlain k × IsPlain v

print_label-Lacks : (k v : Str) → IsPlain k → IsPlain v → Lacks b',' (k ++ b':' ∷ v)
print_label-Lacks k v hk hv =
    All-append (λ c. c ≢ b',') k (b':' ∷ v) hk.0 ((λ e. omega arith), hv.0)

split-print_label : (k v : Str) → IsPlain k → IsPlain v → split b':' (k ++ b':' ∷ v) ≡ k ∷ v ∷ []
split-print_label k v hk hv = split-append b':' k v hk.1 ∙ ap (λ r. k ∷ r) (split-Lacks b':' v hv.1)

is_empty-print : (k v : Str) (c : ℕ) → is_empty (k ++ c ∷ v) ≡ false
is_empty-print [] v c = refl
is_empty-print (x ∷ k) v c = refl

parse_token :
    (k v : Str) (ts : List Str) (values : Assoc Str)
    → IsPlain k
    → IsPlain v
    → parse_tokens ((k ++ b':' ∷ v) ∷ ts) values ≡ parse_tokens ts (insert k v values)
unfolding parse_tokens
parse_token k v ts values hk hv = rw (is_empty-print k v b':', split-print_label k v hk hv)

parse_tokens-print :
    (l : Label) (ls : List Label) (values : Assoc Str)
    → All IsPlainLabel (l ∷ ls)
    → parse_tokens (split b',' (print_labels l ls)) values ≡ store_all (l ∷ ls) values
unfolding print_labels store_all parse_tokens
parse_tokens-print (k, v) [] values ((hk, hv), _) =
    ap (λ ts. parse_tokens ts values) (split-Lacks b',' _ (print_label-Lacks k v hk hv))
    ∙ parse_token k v [] values hk hv
parse_tokens-print (k, v) (m ∷ ms) values ((hk, hv), h) =
    ap (λ ts. parse_tokens ts values)
      (split-append b',' (k ++ b':' ∷ v) (print_labels m ms) (print_label-Lacks k v hk hv))
    ∙ parse_token k v (split b',' (print_labels m ms)) values hk hv
    ∙ parse_tokens-print m ms (insert k v values) h

print_labels-nonempty : (l : Label) (ls : List Label) → is_empty (print_labels l ls) ≡ false
unfolding print_labels
print_labels-nonempty (k, v) [] = is_empty-print k v b':'
print_labels-nonempty (k, v) (m ∷ ms) = is_empty-print _ _ b','

-- Any labels, one or more, whose keys and values hold neither separator, are read back from their
-- printed form in order: the map holds each of them, but for those that a later label of the
-- same key replaces.
pub parse_labels-print :
    (l : Label) (ls : List Label)
    → All IsPlainLabel (l ∷ ls)
    → parse_labels (print_labels l ls) ≡ some (store_all (l ∷ ls) [])
unfolding parse_labels
parse_labels-print l ls h = rw (print_labels-nonempty l ls) (ap some (parse_tokens-print l ls [] h))
