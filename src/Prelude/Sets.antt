-- ===== src/Prelude/Sets.antt =====
-- Go's `map[string]struct{}` as a list of distinct names.
use Prim.Native.Nat.{suc}
use mathlib.Core.Path.{◌≡◌, refl, ap, ◌∙◌}
use mathlib.Core.Bool.{Bool, true, false, ◌||◌}
use mathlib.Core.Logic.{inl, inr}
use mathlib.Core.List.{List, [], ◌∷◌, ◌++◌}
use native.Mathlib.Omega.{arith}
use polaris_sidecar.Prelude.Tests.{if◌then◌else◌, Bool-cases}
use polaris_sidecar.Prelude.Lists.{length}
use polaris_sidecar.Prelude.Text.{Str, str_eq, str_eq_iff, str_eq_refl}

unfoldable pub member : Str → List Str → Bool
member k [] = false
member k (j ∷ m) = str_eq j k || member k m

unfoldable pub add : Str → List Str → List Str
unfolding member
add k m = if member k m then m else k ∷ m

pub member-add : (k j : Str) (m : List Str) → member j (add k m) ≡ (str_eq k j || member j m)
unfolding add member
member-add k j m = ground (arith, str_eq_iff k j)

abbrev pub Distinct : List Str → Type 0
Distinct [] = Unit
Distinct (k ∷ m) = (member k m ≡ false) × Distinct m

pub add-Distinct : (k : Str) (m : List Str) → Distinct m → Distinct (add k m)
unfolding add
add-Distinct k m h = ground arith

erase : Str → List Str → List Str
erase k [] = []
erase k (j ∷ m) = if str_eq j k then m else j ∷ erase k m

length-erase : (k : Str) (m : List Str) → member k m ≡ true → length m ≡ suc (length (erase k m))
unfolding erase member
length-erase k [] h = cc
length-erase k (j ∷ m) h = ground (arith, length-erase k m)

member-erase : (k j : Str) (m : List Str) → str_eq k j ≡ false → member j (erase k m) ≡ member j m
unfolding erase member
member-erase k j [] h = refl
member-erase k j (i ∷ m) h =
    ground (arith, member-erase k j m h, str_eq_iff i k, str_eq_iff i j, str_eq_iff k j)

pub member_subst : (k j : Str) (m : List Str) → str_eq k j ≡ true → member k m ≡ member j m
member_subst k j m h = ap (λ t. member t m) ((str_eq_iff k j).0 h)

distinct_ne :
    (x k : Str) (xs : List Str) → member x xs ≡ false → member k xs ≡ true → str_eq x k ≡ false
distinct_ne x k xs h e = ground (arith, member_subst x k xs)

-- Distinct names that all lie in a list of the same length are all of it.
pub same_set :
    (xs ys : List Str)
    → Distinct xs
    → length xs ≡ length ys
    → ((k : Str) → member k xs ≡ true → member k ys ≡ true)
    → (k : Str) → member k ys ≡ true
    → member k xs ≡ true
unfolding member
same_set [] [] d l h k e = cc
same_set [] (y ∷ ys) d l h k e = ground arith
same_set (x ∷ xs) ys d l h k e = elim (Bool-cases (str_eq x k)) [
  | inl s ↦ rw (s)
  | inr s ↦
      let x_in : member x ys ≡ true = h x (rw (str_eq_refl x)) in
      let rest =
        same_set xs (erase x ys) d.1 (ground (arith, length-erase x ys x_in))
          (λ j p. member-erase x j ys (distinct_ne x j xs d.0 p) ∙ h j (ground arith)) k
          (member-erase x k ys s ∙ e) in
      rw (s) rest
]

pub member-append :
    (k : Str) (xs ys : List Str) → member k (xs ++ ys) ≡ (member k xs || member k ys)
unfolding member
member-append k [] ys = refl
member-append k (x ∷ xs) ys = ground (arith, member-append k xs ys)

pub Distinct-append :
    (k : Str) (xs : List Str) → Distinct xs → member k xs ≡ false → Distinct (xs ++ k ∷ [])
unfolding member
Distinct-append k [] d h = (refl, tt)
Distinct-append k (x ∷ xs) d h =
    let rest = Distinct-append k xs d.1 in
    ground (arith, rest, member-append x xs (k ∷ []), str_eq_iff x k, str_eq_iff k x)
