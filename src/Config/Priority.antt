-- ===== src/Config/Priority.antt =====
-- What stands in the configuration after the environment and the boot flags are merged, by
-- internal/bootstrap/config/config.go.
use polaris_sidecar.Config.{BootConfig, SidecarConfig}
use polaris_sidecar.Config.Env.{
  Env, atoi, get_env_bool_value, get_env_int_value, get_env_string_value, or_default, parse_bool,
}
use polaris_sidecar.Config.Merge.{
  BootError, bad_recurse_enabled, boot_flag, env_merged, env_namespace, merge_boot_config,
  merge_env, merge_resolvers_env,
}
use polaris_sidecar.Prelude.{
  Bool, List, Option, Option-cases, Outcome-cases, [], ap, done, if◌then◌else◌, inl, inr, is_empty,
  none, of_done, panic, refl, some, subst, sym, ℕ, ◌++◌, ◌∙◌, ◌∷◌, ◌≡◌, ◌≢◌,
}
use polaris_sidecar.Prelude.Int.{gtb, pos, ℤ}
use polaris_sidecar.Prelude.Text.{Str, codes, str_eq}
use polaris_sidecar.Resolver.Plugin.{ConfigEntry}

-- A string that is set, or else another.
abbrev pub or_else : Str → Str → Str
or_else [] t = t
or_else (c ∷ s) t = c ∷ s

-- What becomes of the configuration of the file.
pub record Prioritized (env : Env) (config : BootConfig) (s r : SidecarConfig) : Type 0 where
  pub bind : r.bind ≡ or_else config.bind (or_else (env (codes "SIDECAR_BIND")) s.bind)
  pub port : r.port ≡ (
      if gtb config.port (pos 0)
      then config.port
      else or_default (atoi (env (codes "SIDECAR_PORT"))) s.port)
  pub namespace : r.namespace ≡ or_else (env (codes "SIDECAR_NAMESPACE")) s.namespace
  pub recurse_enable :
      r.recurse.enable
      ≡ or_default
          (parse_bool config.recurse_enabled)
          (or_default (parse_bool (env (codes "SIDECAR_RECURSE_ENABLE"))) s.recurse.enable)
  pub recurse_timeout :
      r.recurse.timeout_sec
      ≡ or_default (atoi (env (codes "SIDECAR_RECURSE_TIMEOUT"))) s.recurse.timeout_sec
  pub output_level : r.logger.output_level ≡ config.log_level

read_string : (s old : Str) → (if is_empty s then old else s) ≡ or_else s old
read_string [] old = refl
read_string (c ∷ s) old = refl

-- What cannot be read counts as not set, and so does the empty string.
read_value :
    {A : Type 0} (f : Str → Option A) (s : Str) (old : A)
    → f [] ≡ none
    → (if is_empty s then old else or_default (f s) old) ≡ or_default (f s) old
read_value f [] old e = rw e
read_value f (c ∷ s) old e = refl

pub env_string_lem :
    (env : Env) (env_name old : Str)
    → get_env_string_value env env_name old ≡ or_else (env env_name) old
unfolding get_env_string_value
env_string_lem env env_name old = read_string (env env_name) old

pub env_int_lem :
    (env : Env) (env_name : Str) (old : ℤ)
    → get_env_int_value env env_name old ≡ or_default (atoi (env env_name)) old
unfolding get_env_int_value atoi
env_int_lem env env_name old = read_value atoi (env env_name) old refl

env_bool_lem :
    (env : Env) (env_name : Str) (old : Bool)
    → get_env_bool_value env env_name old ≡ or_default (parse_bool (env env_name)) old
unfolding get_env_bool_value parse_bool str_eq
env_bool_lem env env_name old = read_value parse_bool (env env_name) old refl

cons_nil : {A : Type 0} (a : A) → a ∷ [] ≢ []
cons_nil a h = cc

boot_flag_bad :
    (e : BootError) (c : ℕ) (value : Str) (old : Bool)
    → parse_bool (c ∷ value) ≡ none
    → (boot_flag e (c ∷ value) old).1 ≡ e ∷ []
unfolding boot_flag
boot_flag_bad e c value old p = rw p

boot_flag_good :
    (e : BootError) (c : ℕ) (value : Str) (old b : Bool)
    → parse_bool (c ∷ value) ≡ some b
    → (boot_flag e (c ∷ value) old).0 ≡ or_default (parse_bool (c ∷ value)) old
unfolding boot_flag
boot_flag_good e c value old b p = rw p

-- A flag without an error gives what it says, or leaves the old value.
boot_flag_lem :
    (e : BootError) (value : Str) (old : Bool)
    → (boot_flag e value old).1 ≡ []
    → (boot_flag e value old).0 ≡ or_default (parse_bool value) old
unfolding boot_flag parse_bool str_eq
boot_flag_lem e [] old h = refl
boot_flag_lem e (c ∷ value) old h = elim (Option-cases (parse_bool (c ∷ value))) [
  | inl p ↦ absurd (cons_nil e (sym (boot_flag_bad e c value old p) ∙ h))
  | inr (b, p) ↦ boot_flag_good e c value old b p
]

pub merge_env-step :
    (env : Env) (s : SidecarConfig) (cs : List ConfigEntry)
    → merge_resolvers_env env (env_namespace env s) s.resolvers ≡ done cs
    → merge_env env s ≡ done (env_merged env s cs)
unfolding merge_env
merge_env-step env s cs f = rw f

pub merge_env_stop :
    (env : Env) (s : SidecarConfig)
    → merge_resolvers_env env (env_namespace env s) s.resolvers ≡ panic
    → merge_env env s ≡ panic
unfolding merge_env
merge_env_stop env s f = rw f

done_panic : {A : Type 0} (a : A) → done a ≢ panic
done_panic a h = cc

pub merge_env-done :
    (env : Env) (s s' : SidecarConfig)
    → merge_env env s ≡ done s'
    → (cs : List ConfigEntry) × (merge_resolvers_env env (env_namespace env s) s.resolvers
        ≡ done cs)
      × (s' ≡ env_merged env s cs)
merge_env-done env s s' e =
    elim (Outcome-cases (merge_resolvers_env env (env_namespace env s) s.resolvers)) [
      | inl (cs, f) ↦ (cs, f, of_done s' (env_merged env s cs) (sym e ∙ merge_env-step env s cs f))
      | inr f ↦ absurd (done_panic s' (sym e ∙ merge_env_stop env s f))
    ]

append_left : {A : Type 0} (xs ys : List A) → xs ++ ys ≡ [] → xs ≡ []
append_left [] ys h = refl
append_left (x ∷ xs) ys h = cc

read_bind : (a b c : Str) → b ≡ c → (if is_empty a then b else a) ≡ or_else a c
read_bind [] b c h = h
read_bind (x ∷ a) b c h = refl

-- The fields after both merges, for the configuration that the environment leaves.
merged_fields :
    (env : Env) (config : BootConfig) (s : SidecarConfig) (cs : List ConfigEntry)
    → (merge_boot_config config (env_merged env s cs)).1 ≡ []
    → Prioritized env config s (merge_boot_config config (env_merged env s cs)).0
unfolding merge_boot_config env_merged env_namespace
merged_fields env config s cs b = record {
  bind = read_bind config.bind _ _ (env_string_lem env (codes "SIDECAR_BIND") s.bind);
  port =
      ap (λ t. if gtb config.port (pos 0) then config.port else t)
        (env_int_lem env (codes "SIDECAR_PORT") s.port);
  namespace = env_string_lem env (codes "SIDECAR_NAMESPACE") s.namespace;
  recurse_enable =
      boot_flag_lem bad_recurse_enabled config.recurse_enabled _ (append_left _ _ b)
      ∙ ap (or_default (parse_bool config.recurse_enabled))
          (env_bool_lem env (codes "SIDECAR_RECURSE_ENABLE") s.recurse.enable);
  recurse_timeout = env_int_lem env (codes "SIDECAR_RECURSE_TIMEOUT") s.recurse.timeout_sec;
  output_level = refl;
}

-- Boot flags come before the environment, and this before the file: an address, a port, a
-- namespace and the fallback's switch and timeout are those of the first of these that sets them
-- to a value that can be read. The log level is the one of the boot flags alone, even if it
-- is empty there.
pub merge_boot_config-merge_env :
    (env : Env) (config : BootConfig) (s s' : SidecarConfig)
    → merge_env env s ≡ done s'
    → (merge_boot_config config s').1 ≡ []
    → Prioritized env config s (merge_boot_config config s').0
merge_boot_config-merge_env env config s s' e b =
    let (cs, f, g) = merge_env-done env s s' e in
    subst (λ t. Prioritized env config s (merge_boot_config config t).0) (sym g)
      (merged_fields env config s cs (sym (ap (λ t. (merge_boot_config config t).1) g) ∙ b))
