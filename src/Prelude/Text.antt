-- ===== src/Prelude/Text.antt =====
-- Go strings as lists of bytes, and what the program uses of the package strings.
use Prim.Native.Nat.{ℕ, zero, suc, ◌+◌, ◌-◌}
use Prim.Native.Char.{code}
use Prim.Native.String.{String}
use mathlib.Core.Path.{◌≡◌, refl, ap}
use mathlib.Core.Logic.{◌≢◌, ◌↔◌, inl, inr}
use mathlib.Core.Bool.{Bool, true, false, ◌&&◌}
use mathlib.Core.Option.{Option, none, some}
use mathlib.Core.List.{List, [], ◌∷◌, ◌++◌}
use native.Mathlib.Omega.{arith}
use polaris_sidecar.Prelude.Tests.{leb, ◌==◌, if◌then◌else◌, Option-cases}
use polaris_sidecar.Prelude.Lists.{
  length, take, drop, All, length-append, take-append-drop, take-length_append, drop-length_append,
}

abbrev pub Str : Type 0
Str = List ℕ

-- The bytes of an ASCII literal.
abbrev pub codes : String → Str
codes String.[] = []
codes (String.◌∷◌ c s) = code c ∷ codes s

unfoldable pub str_eq : Str → Str → Bool
str_eq [] [] = true
str_eq (x ∷ xs) (y ∷ ys) = x == y && str_eq xs ys
str_eq _ _ = false

-- A test for equality decides equality.
pub str_eq_iff : (s t : Str) → (str_eq s t ≡ true) ↔ (s ≡ t)
unfolding str_eq
str_eq_iff [] [] = ground arith
str_eq_iff [] (y ∷ ys) = ground arith
str_eq_iff (x ∷ xs) [] = ground arith
str_eq_iff (x ∷ xs) (y ∷ ys) = ground (arith, str_eq_iff xs ys)

pub str_eq_refl : (s : Str) → str_eq s s ≡ true
str_eq_refl s = (str_eq_iff s s).1 refl

-- `strings.HasSuffix`
unfoldable pub has_suffix : Str → Str → Bool
unfolding str_eq
has_suffix s suffix =
    leb (length suffix) (length s) && str_eq (drop (length s - length suffix) s) suffix

-- `s[:len(s)-len(suffix)]`
abbrev pub cut_end : Str → Str → Str
cut_end s suffix = take (length s - length suffix) s

length_cut : (p q : Str) → length (p ++ q) - length q ≡ length p
length_cut p q = omega (arith, length-append p q)

pub cut_end-append : (p q : Str) → cut_end (p ++ q) q ≡ p
cut_end-append p q = rw (length_cut p q) (take-length_append p q)

pub has_suffix-append : (p q : Str) → has_suffix (p ++ q) q ≡ true
unfolding has_suffix
has_suffix-append p q =
    rw (length_cut p q, drop-length_append p q, str_eq_refl q) (ground (arith, length-append p q))

pub has_suffix_split : (s q : Str) → has_suffix s q ≡ true → cut_end s q ++ q ≡ s
unfolding has_suffix
has_suffix_split s q h =
    ground
      (arith, take-append-drop (length s - length q) s, str_eq_iff (drop (length s - length q) s) q)

-- `strings.Count` of one byte.
unfoldable pub count : ℕ → Str → ℕ
count b [] = 0
count b (c ∷ s) = let rest = count b s in if c == b then suc rest else rest

-- `strings.LastIndex` of one byte; `none` is -1.
unfoldable pub last_index : ℕ → Str → Option ℕ
last_index b [] = none
last_index b (c ∷ s) = elim (last_index b s) [
  | some i ↦ some (suc i)
  | none ↦ if c == b then some 0 else none
]

abbrev pub Lacks : ℕ → Str → Type 0
Lacks b = All (λ c. c ≢ b)

pub last_index-Lacks : (b : ℕ) (s : Str) → Lacks b s → last_index b s ≡ none
unfolding last_index
last_index-Lacks b [] h = refl
last_index-Lacks b (c ∷ s) h = rw (last_index-Lacks b s h.1) (ground arith)

-- The last occurrence is the one with no other behind it.
pub last_index-append :
    (b : ℕ) (p q : Str) → Lacks b q → last_index b (p ++ b ∷ q) ≡ some (length p)
unfolding last_index
last_index-append b [] q h = rw (last_index-Lacks b q h) (ground arith)
last_index-append b (c ∷ p) q h = rw (last_index-append b p q h, last_index)

-- `strings.Split` at one byte: always one part or more.
unfoldable pub split : ℕ → Str → List Str
split b [] = [] ∷ []
split b (c ∷ s) = elim (split b s) [
  | [] ↦ [] ∷ []
  | p ∷ ps ↦ if c == b then [] ∷ p ∷ ps else (c ∷ p) ∷ ps
]

-- `strings.ToLower` on ASCII text.
abbrev pub lower : ℕ → ℕ
lower c = if leb b'A' c && leb c b'Z' then c + 32 else c

unfoldable pub to_lower : Str → Str
to_lower [] = []
to_lower (c ∷ s) = lower c ∷ to_lower s

pub to_lower_idem : (s : Str) → to_lower (to_lower s) ≡ to_lower s
unfolding to_lower
to_lower_idem [] = refl
to_lower_idem (c ∷ s) = ground (arith, to_lower_idem s)

pub to_lower-append : (s t : Str) → to_lower (s ++ t) ≡ to_lower s ++ to_lower t
unfolding to_lower
to_lower-append [] t = refl
to_lower-append (c ∷ s) t = ap (λ r. lower c ∷ r) (to_lower-append s t)

pub last_index-none : (b : ℕ) (s : Str) → last_index b s ≡ none → Lacks b s
unfolding last_index
last_index-none b [] h = tt
last_index-none b (c ∷ s) h = ground (arith, λ (e : last_index b s ≡ none). last_index-none b s e)

-- Where the last occurrence is found, the text splits at it.
pub last_index_split :
    (b : ℕ) (s : Str) (i : ℕ)
    → last_index b s ≡ some i
    → (take i s ++ b ∷ drop (suc i) s ≡ s) × Lacks b (drop (suc i) s)
unfolding last_index
last_index_split b [] i h = cc
last_index_split b (c ∷ s) zero h = elim (Option-cases (last_index b s)) [
  | inl e ↦ (ground arith, last_index-none b s e)
  | inr (j, e) ↦ cc
]
last_index_split b (c ∷ s) (suc i) h = elim (Option-cases (last_index b s)) [
  | inl e ↦ ground arith
  | inr (j, e) ↦ let r = last_index_split b s i (ground arith) in (ap (λ t. c ∷ t) r.0, r.1)
]
