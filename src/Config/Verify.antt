-- ===== src/Config/Verify.antt =====
-- internal/bootstrap/config/verify.go: which configurations are refused.
use polaris_sidecar.Config.{SidecarConfig}
use polaris_sidecar.Prelude.{
  Bool, List, [], if◌then◌else◌, is_empty, not, true, ℕ, ◌&&◌, ◌++◌, ◌+◌, ◌||◌, ◌∷◌,
}
use polaris_sidecar.Prelude.Int.{gtb, is_neg, pos}
use polaris_sidecar.Prelude.Sets.{member}
use polaris_sidecar.Prelude.Text.{Str, codes, str_eq}
use polaris_sidecar.Resolver.Plugin.{ConfigEntry, plugin_name_dns_agent, plugin_name_mesh_proxy}

pub data VerifyError : Type 0 where
  bad_output_level bad_rotation bad_match_level empty_bind bad_port bad_timeout : VerifyError
  no_resolver none_enabled : VerifyError
  empty_name bad_dns_ttl : ℕ → VerifyError

abbrev pub string_to_level : List Str
string_to_level = codes "debug" ∷ codes "info" ∷ codes "warn" ∷ codes "error" ∷ codes "fatal" ∷ []

abbrev pub string_to_match_level : List Str
string_to_match_level = codes "region" ∷ codes "zone" ∷ codes "campus" ∷ []

-- An error that is reported if a test holds.
abbrev pub report : Bool → VerifyError → List VerifyError
report b e = if b then e ∷ [] else []

unfoldable pub verify_fields : SidecarConfig → List VerifyError
verify_fields s =
    report
      (not (is_empty s.logger.output_level) && not (member s.logger.output_level string_to_level))
      bad_output_level
    ++ report
        (is_neg s.logger.rotation_max_age
          || is_neg s.logger.rotation_max_backups
          || is_neg s.logger.rotation_max_size)
        bad_rotation
    ++ report
        (not (is_empty s.polaris_config.nearby_match_level)
          && not (member s.polaris_config.nearby_match_level string_to_match_level))
        bad_match_level
    ++ report (is_empty s.bind) empty_bind
    ++ report (not (gtb s.port (pos 0))) bad_port
    ++ report (not (gtb s.recurse.timeout_sec (pos 0))) bad_timeout
    ++ report (is_empty s.resolvers) no_resolver

-- The loop over the resolvers: its errors, and the flags that it sets.
unfoldable pub verify_resolvers : ℕ → List ConfigEntry → List VerifyError
verify_resolvers idx [] = []
verify_resolvers idx (c ∷ cs) =
    report (is_empty c.name) (empty_name idx)
    ++ report (is_neg c.dns_ttl) (bad_dns_ttl idx)
    ++ verify_resolvers (idx + 1) cs

-- DnsEnabled and MeshEnabled.
unfoldable pub set_flags : List ConfigEntry → Bool × Bool → Bool × Bool
set_flags [] flags = flags
set_flags (c ∷ cs) (dns, mesh) = set_flags cs (
    if not c.enable
    then (dns, mesh)
    else if str_eq c.name plugin_name_dns_agent
    then (true, mesh)
    else if str_eq c.name plugin_name_mesh_proxy
    then (dns, true)
    else (dns, mesh))

-- `verify`, with the configuration it leaves and its errors.
unfoldable pub verify : SidecarConfig → SidecarConfig × List VerifyError
unfolding verify_fields verify_resolvers set_flags
verify s =
    let (dns, mesh) = set_flags s.resolvers (s.dns_enabled, s.mesh_enabled) in
    (
      record s { dns_enabled = dns; mesh_enabled = mesh },
      verify_fields s
          ++ verify_resolvers 0 s.resolvers
          ++ report (not dns && not mesh) none_enabled,
    )
