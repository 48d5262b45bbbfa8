-- ===== src/Resolver/Plugin.antt =====
-- internal/resolver/common/resolver.go: the entry of the configuration that a resolver gets.
use polaris_sidecar.Prelude.{Bool, Option}
use polaris_sidecar.Prelude.Assoc.{Assoc}
use polaris_sidecar.Prelude.Int.{ℤ}
use polaris_sidecar.Prelude.Text.{Str, codes}

-- constants of the package common
abbrev pub plugin_name_dns_agent : Str
plugin_name_dns_agent = codes "dnsagent"

abbrev pub plugin_name_mesh_proxy : Str
plugin_name_mesh_proxy = codes "meshproxy"

-- The values of `map[string]interface{}` that the program puts into an option, and reads.
pub data OptionValue : Type 0 where
  text : Str → OptionValue
  number : ℤ → OptionValue
  flag : Bool → OptionValue
  label_map : Assoc Str → OptionValue

-- The options of a nil map are `none`.
pub record ConfigEntry : Type 0 where
  pub name : Str
  pub suffix : Str
  pub dns_ttl : ℤ
  pub enable : Bool
  pub options : Option (Assoc OptionValue)
  pub namespace : Str
