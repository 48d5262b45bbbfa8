-- ===== src/Config/Entries.antt =====
-- What becomes of the entries of the resolvers in internal/bootstrap/config/config.go.
use polaris_sidecar.Config.{SidecarConfig, dns_answer_ip_key, reload_interval_key}
use polaris_sidecar.Config.Env.{Env}
use polaris_sidecar.Config.Merge.{
  env_answer_ip, env_namespace, env_reload_interval, merge_env, merge_mesh_proxy_env,
  merge_resolver_env, merge_resolvers_env, set_option,
}
use polaris_sidecar.Config.Priority.{merge_env-step, merge_env_stop}
use polaris_sidecar.Prelude.{
  Bool, List, Option, Option-cases, Outcome, Outcome-cases, [], ap, arith, done, false,
  if◌then◌else◌, inl, inr, is_empty, none, not, panic, refl, some, true, ◌&&◌, ◌>>=◌, ◌||◌, ◌↔◌,
  ◌∙◌, ◌∷◌, ◌≡◌, ◌≢◌, ◌⊎◌,
}
use polaris_sidecar.Prelude.Assoc.{Assoc, insert}
use polaris_sidecar.Prelude.Int.{gtb, pos}
use polaris_sidecar.Prelude.Text.{Str, str_eq}
use polaris_sidecar.Resolver.Plugin.{
  ConfigEntry, OptionValue, number, plugin_name_dns_agent, plugin_name_mesh_proxy, text,
}

-- The environment sets an option of the mesh resolver.
abbrev pub sets_mesh_option : Env → Bool
sets_mesh_option env = gtb (env_reload_interval env) (pos 0) || not (is_empty (env_answer_ip env))

abbrev is_nil {ℓ} : {A : Type ℓ} → Option A → Bool
is_nil none = true
is_nil (some a) = false

-- An entry of the mesh resolver has no options.
abbrev is_bare_mesh : ConfigEntry → Bool
is_bare_mesh c =
    not (str_eq c.name plugin_name_dns_agent)
    && str_eq c.name plugin_name_mesh_proxy
    && is_nil c.options

unfoldable pub has_bare_mesh : List ConfigEntry → Bool
has_bare_mesh [] = false
has_bare_mesh (c ∷ cs) = is_bare_mesh c || has_bare_mesh cs

set_option-some :
    (guard : Bool) (k : Str) (v : OptionValue) (c : ConfigEntry) (m : Assoc OptionValue)
    → c.options ≡ some m
    → (c' : ConfigEntry) × (m' : Assoc OptionValue) × (set_option guard k v c ≡ done c')
      × (c'.options ≡ some m')
unfolding set_option
set_option-some true k v c m e =
    (record c { options = some (insert k v m) }, insert k v m, rw e, refl)
set_option-some false k v c m e = (c, m, refl, e)

set_option-none :
    (guard : Bool) (k : Str) (v : OptionValue) (c : ConfigEntry)
    → c.options ≡ none
    → set_option guard k v c ≡ (if guard then panic else done c)
unfolding set_option
set_option-none true k v c e = rw e
set_option-none false k v c e = refl

set_bare :
    (a b : Bool) (k j : Str) (v w : OptionValue) (c : ConfigEntry)
    → c.options ≡ none
    → (set_option a k v c >>= set_option b j w) ≡ (if a || b then panic else done c)
set_bare true b k j v w c e = rw (set_option-none true k v c e)
set_bare false b k j v w c e = rw (set_option-none false k v c e) (set_option-none b j w c e)

set_full :
    (a b : Bool) (k j : Str) (v w : OptionValue) (c : ConfigEntry) (m : Assoc OptionValue)
    → c.options ≡ some m
    → (c' : ConfigEntry) × ((set_option a k v c >>= set_option b j w) ≡ done c')
set_full a b k j v w c m e =
    let (c', m', f, g) = set_option-some a k v c m e in
    let (c'', m'', h, i) = set_option-some b j w c' m' g in
    (c'', ap (λ t. t >>= set_option b j w) f ∙ h)

if_panic : (b : Bool) (c : ConfigEntry) → ((if b then panic else done c) ≡ panic) ↔ (b ≡ true)
if_panic true c = ((λ h. refl), λ h. refl)
if_panic false c = ((λ h. cc), λ h. cc)

pub done_ne_panic : {A : Type 0} (o : Outcome A) (c : A) → o ≡ done c → o ≢ panic
done_ne_panic o c e h = cc

is_nil-none : (o : Option (Assoc OptionValue)) → o ≡ none → is_nil o ≡ true
is_nil-none o e = rw e

is_nil-some :
    (o : Option (Assoc OptionValue)) (m : Assoc OptionValue) → o ≡ some m → is_nil o ≡ false
is_nil-some o m e = rw e

-- Two assignments, one after the other.
set_twice :
    (a b : Bool) (k j : Str) (v w : OptionValue) (c : ConfigEntry)
    → ((set_option a k v c >>= set_option b j w) ≡ panic) ↔ (is_nil c.options && (a || b) ≡ true)
set_twice a b k j v w c = elim (Option-cases c.options) [
  | inl e ↦
      rw (set_bare a b k j v w c e) (ground (arith, if_panic (a || b) c, is_nil-none c.options e))
  | inr (m, e) ↦
      let (c', f) = set_full a b k j v w c m e in
      ((λ h. absurd (done_ne_panic _ c' f h)), λ h. ground (arith, is_nil-some c.options m e))
]

both_panic :
    {A B C : Type 0} (m : Outcome A) (n : Outcome B) (g : A → B → C)
    → ((m >>= (λ a. n >>= (λ b. done (g a b)))) ≡ panic) ↔ ((m ≡ panic) ⊎ (n ≡ panic))
both_panic (done a) (done b) g = ground arith
both_panic (done a) panic g = ((λ h. inr refl), λ h. refl)
both_panic panic n g = ((λ h. inl refl), λ h. refl)

module _ (env : Env) where
  merge_mesh-panic :
      (c : ConfigEntry)
      → (merge_mesh_proxy_env env c ≡ panic) ↔ (is_nil c.options && sets_mesh_option env ≡ true)
  unfolding merge_mesh_proxy_env
  merge_mesh-panic c =
      set_twice (gtb (env_reload_interval env) (pos 0)) (not (is_empty (env_answer_ip env)))
        reload_interval_key dns_answer_ip_key (number (env_reload_interval env))
        (text (env_answer_ip env)) _

  merge_resolver-panic :
      (namespace : Str) (c : ConfigEntry)
      → (merge_resolver_env env namespace c ≡ panic)
        ↔ (is_bare_mesh c && sets_mesh_option env ≡ true)
  unfolding merge_resolver_env
  merge_resolver-panic namespace c =
      ground (arith, merge_mesh-panic (record c { namespace = namespace }))

  merge_resolvers-panic :
      (namespace : Str) (cs : List ConfigEntry)
      → (merge_resolvers_env env namespace cs ≡ panic)
        ↔ (has_bare_mesh cs && sets_mesh_option env ≡ true)
  unfolding merge_resolvers_env has_bare_mesh
  merge_resolvers-panic namespace [] = ((λ h. cc), λ h. cc)
  merge_resolvers-panic namespace (c ∷ cs) = ground (
    arith,
    merge_resolver-panic namespace c,
    merge_resolvers-panic namespace cs,
    both_panic (merge_resolver_env env namespace c) (merge_resolvers_env env namespace cs)
        (λ d ds. d ∷ ds),
  )

  -- The merge of the environment panics exactly if it sets the reload interval or the answer
  -- address, and an entry of the mesh resolver has no options.
  pub merge_env-panic :
      (s : SidecarConfig)
      → (merge_env env s ≡ panic) ↔ (has_bare_mesh s.resolvers && sets_mesh_option env ≡ true)
  merge_env-panic s =
      let loop = merge_resolvers-panic (env_namespace env s) s.resolvers in
      (
        (λ h.
            loop.0
              (elim (Outcome-cases (merge_resolvers_env env (env_namespace env s) s.resolvers)) [
                | inl (cs, f) ↦ absurd (done_ne_panic _ _ (merge_env-step env s cs f) h)
                | inr f ↦ f
              ])),
        λ h. merge_env_stop env s (loop.1 h),
      )
