-- ===== src/Log/Registry.antt =====
-- The registry of the scopes in pkg/log/scope.go.
use native.Mathlib.Decide.{ℕ_discrete}
use polaris_sidecar.Log.Scope.{Scope, contains_any, find_scope, new_scope, register_scope}
use polaris_sidecar.Prelude.{
  Bool-cases, Ensures, Option, Option-cases, Outcome, [], ap, arith, done, false, inl, inr, none,
  panic, refl, some, subst, sym, true, ℕ, ◌++◌, ◌↔◌, ◌∙◌, ◌∷◌, ◌≡◌, ◌⊎◌,
}
use polaris_sidecar.Prelude.Assoc.{Assoc, insert, lookup, lookup-insert}
use polaris_sidecar.Prelude.Text.{Str, str_eq_iff, str_eq_refl}

register-clean :
    (name description : Str) (skip : ℕ) (scopes : Assoc Scope) (o : Option Scope)
    → contains_any name ≡ false
    → lookup name scopes ≡ o
    → register_scope name description skip scopes
      ≡ done (elim o [
        | some s ↦ (s, scopes)
        | none ↦
            (new_scope name description skip, insert name (new_scope name description skip) scopes)
      ])
unfolding register_scope
register-clean name description skip scopes o c e = rw (c, e, register_scope) refl

-- One of the three bytes stands somewhere in the name.
abbrev pub HasMark : Str → Type 0
HasMark name =
    (p : Str) × (c : ℕ) × (q : Str) × (name ≡ p ++ c ∷ q) × ((c ≡ b':') ⊎ (c ≡ b',') ⊎ (c ≡ b'.'))

HasMark-later : (c : ℕ) (s : Str) → HasMark s → HasMark (c ∷ s)
HasMark-later c s (p, d, q, e, m) = (c ∷ p, d, q, ap (λ t. c ∷ t) e, m)

contains_any-HasMark : (name : Str) → contains_any name ≡ true → HasMark name
unfolding contains_any
contains_any-HasMark [] h = cc
contains_any-HasMark (c ∷ s) h = elim (ℕ_discrete c b':') [
  | yes e ↦ ([], c, s, refl, inl e)
  | no e ↦ elim (ℕ_discrete c b',') [
    | yes f ↦ ([], c, s, refl, inr (inl f))
    | no f ↦ elim (ℕ_discrete c b'.') [
      | yes g ↦ ([], c, s, refl, inr (inr g))
      | no g ↦ HasMark-later c s (contains_any-HasMark s (ground arith))
    ]
  ]
]

contains_any-append :
    (p : Str) (c : ℕ) (q : Str)
    → (c ≡ b':') ⊎ (c ≡ b',') ⊎ (c ≡ b'.')
    → contains_any (p ++ c ∷ q) ≡ true
unfolding contains_any
contains_any-append [] c q m = ground arith
contains_any-append (d ∷ p) c q m = ground (arith, contains_any-append p c q m)

HasMark-contains_any : (name : Str) → HasMark name → contains_any name ≡ true
HasMark-contains_any name (p, c, q, e, m) = ap contains_any e ∙ contains_any-append p c q m

returns :
    {A : Type 0} (o : Outcome A) (name : Str) (x : A)
    → o ≡ done x
    → contains_any name ≡ false
    → (o ≡ panic) ↔ HasMark name
returns o name x h e = ((λ f. cc), λ m. cc (e, HasMark-contains_any name m))

module _ (name description : Str) (skip : ℕ) (scopes : Assoc Scope) where
  -- What a registration that returns leaves.
  abbrev pub Registered : Scope × Assoc Scope → Type 0
  Registered (s, m) =
      (find_scope name m ≡ some s)
      × ((j : Str) (t : Scope) → find_scope j scopes ≡ some t → find_scope j m ≡ some t)
      × ((j : Str) (t : Scope)
          → find_scope j m ≡ some t
          → (j ≡ name) ⊎ (find_scope j scopes ≡ some t))
      × ((other : Str) (n : ℕ) → register_scope name other n m ≡ done (s, m))

  Registered-old :
      (s : Scope) → contains_any name ≡ false → lookup name scopes ≡ some s → Registered (s, scopes)
  unfolding find_scope
  Registered-old s c e = (
    e,
    (λ j t h. h),
    (λ j t h. inr h),
    λ other n. register-clean name other n scopes (some s) c e,
  )

  Registered-new :
      (s : Scope)
      → contains_any name ≡ false
      → lookup name scopes ≡ none
      → Registered (s, insert name s scopes)
  unfolding find_scope
  Registered-new s c e =
      let there : lookup name (insert name s scopes) ≡ some s =
        lookup-insert name name s scopes ∙ rw (str_eq_refl name) refl in
      (
        there,
        (λ j t h. ground (arith, lookup-insert name j s scopes, str_eq_iff name j)),
        (λ j t h. ground (arith, lookup-insert name j s scopes, str_eq_iff name j)),
        λ other n. register-clean name other n (insert name s scopes) (some s) c there,
      )

  -- A registration panics exactly if the name has a colon, a comma or a period. If it returns, the
  -- name is found with the scope that it gave, every other scope is still the one it was, no other
  -- name is new, and a second registration of the name gives the same scope and changes nothing.
  pub register_scope_lem :
      ((register_scope name description skip scopes ≡ panic) ↔ HasMark name)
      × Ensures Registered (register_scope name description skip scopes)
  unfolding register_scope
  register_scope_lem = elim (Bool-cases (contains_any name)) [
    | inl c ↦ (((λ h. contains_any-HasMark name c), λ h. rw c refl), rw c tt)
    | inr c ↦ elim (Option-cases (lookup name scopes)) [
      | inl e ↦ (
        returns _ _ _ (register-clean name description skip scopes none c e) c,
        subst (Ensures Registered) (sym (register-clean name description skip scopes none c e))
            (Registered-new _ c e),
      )
      | inr (s, e) ↦ (
        returns _ _ _ (register-clean name description skip scopes (some s) c e) c,
        subst (Ensures Registered) (sym (register-clean name description skip scopes (some s) c e))
            (Registered-old s c e),
      )
    ]
  ]
