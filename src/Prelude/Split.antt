-- ===== src/Prelude/Split.antt =====
-- `strings.Split` at one byte, taken apart.
use mathlib.Core.List.{List, [], ◌∷◌, ◌++◌}
use mathlib.Core.Logic.{◌≢◌, inl, inr}
use mathlib.Core.Path.{◌≡◌, refl}
use native.Mathlib.Omega.{arith}
use Prim.Native.Nat.{ℕ}
use polaris_sidecar.Prelude.Tests.{◌==◌, Bool-cases}
use polaris_sidecar.Prelude.Text.{Str, Lacks, split}

pub split-Lacks : (b : ℕ) (s : Str) → Lacks b s → split b s ≡ s ∷ []
unfolding split
split-Lacks b [] h = refl
split-Lacks b (c ∷ s) h = rw (split-Lacks b s h.1, split) (ground arith)

split_cons :
    (b c : ℕ) (s p : Str) (ps : List Str)
    → c ≢ b
    → split b s ≡ p ∷ ps
    → split b (c ∷ s) ≡ (c ∷ p) ∷ ps
unfolding split
split_cons b c s p ps h e = rw (e, split) (ground arith)

pub split_nonempty : (b : ℕ) (s : Str) → (p : Str) × (ps : List Str) × (split b s ≡ p ∷ ps)
unfolding split
split_nonempty b [] = ([], [], refl)
split_nonempty b (c ∷ s) =
    let (p, ps, e) = split_nonempty b s in
    elim (Bool-cases (c == b)) [
      | inl h ↦ ([], p ∷ ps, rw (e, split, h))
      | inr h ↦ (c ∷ p, ps, rw (e, split, h))
    ]

pub split-append : (b : ℕ) (p s : Str) → Lacks b p → split b (p ++ b ∷ s) ≡ p ∷ split b s
unfolding split
split-append b [] s h = let (q, qs, e) = split_nonempty b s in rw (e, split) (ground arith)
split-append b (c ∷ p) s h = split_cons b c (p ++ b ∷ s) p (split b s) h.0 (split-append b p s h.1)
