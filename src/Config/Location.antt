-- ===== src/Config/Location.antt =====
-- The location of the sidecar: setLocationConfig and mergeLocationEnv of
-- internal/bootstrap/config/config.go.
use polaris_sidecar.Config.{LocationProvider, PolarisConfig}
use polaris_sidecar.Config.Env.{Env, get_env_string_value}
use polaris_sidecar.Prelude.{
  Bool-cases, List, Option, [], arith, false, if◌then◌else◌, inl, inr, is_empty, none, not, refl,
  some, ◌&&◌, ◌∙◌, ◌∷◌, ◌≡◌, ◌⊎◌,
}
use polaris_sidecar.Prelude.Text.{Str, codes, str_eq, str_eq_iff}
use polaris_sidecar.Resolver.Plugin.{text}

-- The loop: the first provider of the same type is replaced, or the provider is appended.
unfoldable pub set_provider : LocationProvider → List LocationProvider → List LocationProvider
set_provider p [] = p ∷ []
set_provider p (q ∷ providers) =
    if str_eq q.kind p.kind then p ∷ providers else q ∷ set_provider p providers

abbrev pub providers_of : Option (List LocationProvider) → List LocationProvider
providers_of none = []
providers_of (some providers) = providers

unfoldable pub set_location_config : LocationProvider → PolarisConfig → PolarisConfig
unfolding set_provider
set_location_config p c = record c { location = some (set_provider p (providers_of c.location)) }

-- `sdkloc.Local`
abbrev pub local_provider : Str
local_provider = codes "local"

unfoldable pub area_provider : Str → Str → Str → LocationProvider
area_provider region zone campus = record {
  kind = local_provider;
  options =
      (codes "region", text region)
      ∷ (codes "zone", text zone)
      ∷ (codes "campus", text campus)
      ∷ [];
}

-- `mergeLocationEnv` behind the reading of its three variables.
unfoldable pub set_area : Str → Str → Str → PolarisConfig → PolarisConfig
unfolding set_location_config area_provider
set_area region zone campus c =
    if is_empty region && is_empty zone && is_empty campus
    then c
    else set_location_config (area_provider region zone campus) c

unfoldable pub merge_location_env : Env → PolarisConfig → PolarisConfig
unfolding set_area
merge_location_env env c =
    set_area (get_env_string_value env (codes "SIDECAR_REGION") [])
      (get_env_string_value env (codes "SIDECAR_ZONE") [])
      (get_env_string_value env (codes "SIDECAR_CAMPUS") []) c

-- The first provider of a type.
unfoldable pub find_provider : Str → List LocationProvider → Option LocationProvider
find_provider kind [] = none
find_provider kind (q ∷ providers) =
    if str_eq q.kind kind then some q else find_provider kind providers

-- The first provider of the new one's type is the new one, and those of other types stay.
pub find_provider-set_provider :
    (p : LocationProvider) (providers : List LocationProvider) (kind : Str)
    → find_provider kind (set_provider p providers)
      ≡ (if str_eq p.kind kind then some p else find_provider kind providers)
unfolding find_provider set_provider
find_provider-set_provider p [] kind = refl
find_provider-set_provider p (q ∷ providers) kind = ground (
  arith,
  find_provider-set_provider p providers kind,
  str_eq_iff p.kind kind,
  str_eq_iff q.kind kind,
  str_eq_iff q.kind p.kind,
)

empty_or : (s : Str) → (s ≡ []) ⊎ (is_empty s ≡ false)
empty_or [] = inl refl
empty_or (c ∷ s) = inr refl

pub get_env-default :
    (env : Env) (env_name : Str) → get_env_string_value env env_name [] ≡ env env_name
unfolding get_env_string_value
get_env-default env env_name = ground (arith, empty_or (env env_name))

set_area_lem :
    (region zone campus : Str) (c : PolarisConfig) (kind : Str)
    → find_provider kind (providers_of (set_area region zone campus c).location) ≡ (
        if str_eq local_provider kind && not (is_empty region && is_empty zone && is_empty campus)
        then some (area_provider region zone campus)
        else find_provider kind (providers_of c.location))
unfolding set_area
set_area_lem region zone campus c kind =
    elim (Bool-cases (is_empty region && is_empty zone && is_empty campus)) [
      | inl e ↦ rw (e, set_area) (ground arith)
      | inr e ↦
          rw (e, set_area)
            (find_provider-set_provider (area_provider region zone campus) (providers_of c.location)
                kind
              ∙ unfold area_provider in ground arith)
    ]

-- After the environment is merged the local provider is the one of the three variables, if one of
-- them is set, and stays as it is otherwise; a provider of another type always stays.
pub merge_location_env_lem :
    (env : Env) (c : PolarisConfig) (kind : Str)
    → find_provider kind (providers_of (merge_location_env env c).location) ≡ (
        if str_eq local_provider kind
          && not (
              is_empty (env (codes "SIDECAR_REGION"))
              && is_empty (env (codes "SIDECAR_ZONE"))
              && is_empty (env (codes "SIDECAR_CAMPUS")))
        then some (
            area_provider
              (env (codes "SIDECAR_REGION"))
              (env (codes "SIDECAR_ZONE"))
              (env (codes "SIDECAR_CAMPUS")))
        else find_provider kind (providers_of c.location))
unfolding merge_location_env
merge_location_env_lem env c kind =
    rw
      (
        get_env-default env (codes "SIDECAR_REGION"),
        get_env-default env (codes "SIDECAR_ZONE"),
        get_env-default env (codes "SIDECAR_CAMPUS"),
      )
      (set_area_lem (env (codes "SIDECAR_REGION")) (env (codes "SIDECAR_ZONE"))
        (env (codes "SIDECAR_CAMPUS")) c kind)
