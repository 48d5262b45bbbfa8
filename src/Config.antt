-- ===== src/Config.antt =====
-- internal/bootstrap/config: the configuration of the sidecar and its defaults. The sections that
-- the default configuration sets are not nil: a file that sets one of them to null is left out.
pub mod Env
pub mod Location
pub mod Merge
pub mod Priority
pub mod Entries
pub mod RouteLabels
pub mod Verify
pub mod Accepted
pub mod Init
pub mod Wiring
pub mod Services
use polaris_sidecar.Prelude.{Bool, List, Option, [], false, none, some, true, ℕ, ◌∷◌}
use polaris_sidecar.Prelude.Assoc.{Assoc}
use polaris_sidecar.Prelude.Int.{pos, ℤ}
use polaris_sidecar.Prelude.Text.{Str, codes}
use polaris_sidecar.Qname.{dot}
use polaris_sidecar.Resolver.Plugin.{
  ConfigEntry, OptionValue, number, plugin_name_dns_agent, plugin_name_mesh_proxy, text,
}

pub record LocationProvider : Type 0 where
  pub kind : Str
  pub options : Assoc OptionValue

-- A nil location is `none`.
pub record PolarisConfig : Type 0 where
  pub addresses : List Str
  pub location : Option (List LocationProvider)
  pub nearby_match_level : Str

pub record RecurseConfig : Type 0 where
  pub enable : Bool
  pub timeout_sec : ℤ
  pub name_servers : List Str

-- The fields of `log.Options` that this package sets or reads.
pub record LogOptions : Type 0 where
  pub rotate_output_path : Str
  pub error_rotate_output_path : Str
  pub rotation_max_age : ℤ
  pub rotation_max_backups : ℤ
  pub rotation_max_size : ℤ
  pub output_level : Str

pub record MetricConfig : Type 0 where
  pub enable : Bool
  pub port : ℤ

pub record MtlsConfig : Type 0 where
  pub enable : Bool
  pub ca_server : Str

-- `rls.TLSInfo` and `rls.Config`
pub record TlsInfo : Type 0 where
  pub cert_file : Str
  pub key_file : Str

pub record RlsConfig : Type 0 where
  pub enable : Bool
  pub network : Str
  pub address : Str
  pub bind_port : ℕ
  pub tls_info : Option TlsInfo

pub record MeshConfig : Type 0 where
  pub metrics : MetricConfig
  pub rate_limit : RlsConfig
  pub mtls : MtlsConfig

pub record DebugConfig : Type 0 where
  pub enable : Bool
  pub port : ℤ

pub record SidecarConfig : Type 0 where
  pub namespace : Str
  pub polaris_config : PolarisConfig
  pub bind : Str
  pub port : ℤ
  pub logger : LogOptions
  pub recurse : RecurseConfig
  pub resolvers : List ConfigEntry
  pub mesh_config : MeshConfig
  pub debugger : DebugConfig
  pub dns_enabled : Bool
  pub mesh_enabled : Bool

pub record BootConfig : Type 0 where
  pub bind : Str
  pub port : ℤ
  pub log_level : Str
  pub recurse_enabled : Str
  pub resolver_dns_agent_enabled : Str
  pub resolver_dns_agent_route_labels : Str
  pub resolver_mesh_proxy_enabled : Str

abbrev pub default_rls_address : Str
default_rls_address = codes "/tmp/polaris-sidecar/ratelimit/rls.sock"

abbrev pub default_ca_server : Str
default_ca_server = codes "https://polaris-security.polaris-system.svc:8888"

abbrev pub reload_interval_key : Str
reload_interval_key = codes "reload_interval_sec"

abbrev pub dns_answer_ip_key : Str
dns_answer_ip_key = codes "dns_answer_ip"

default_resolvers : List ConfigEntry
default_resolvers =
    record {
      name = plugin_name_dns_agent;
      suffix = dot;
      dns_ttl = pos 10;
      enable = true;
      options = none;
      namespace = [];
    }
    ∷ record {
      name = plugin_name_mesh_proxy;
      suffix = dot;
      dns_ttl = pos 120;
      enable = false;
      options = some (
          (reload_interval_key, number (pos 30))
          ∷ (dns_answer_ip_key, text (codes "10.4.4.4"))
          ∷ []);
      namespace = [];
    }
    ∷ []

default_mesh_config : MeshConfig
default_mesh_config = record {
  metrics = record { enable = false; port = pos 15985 };
  rate_limit = record {
    enable = false;
    network = codes "unix";
    address = default_rls_address;
    bind_port = 0;
    tls_info = none;
  };
  mtls = record { enable = false; ca_server = default_ca_server };
}

unfoldable pub default_sidecar_config : SidecarConfig
unfolding default_resolvers default_mesh_config
default_sidecar_config = record {
  namespace = codes "default";
  polaris_config = record {
    addresses = codes "127.0.0.1:8091" ∷ [];
    location = none;
    nearby_match_level = [];
  };
  bind = codes "0.0.0.0";
  port = pos 53;
  logger = record {
    rotate_output_path = codes "logs/polaris-sidecar.log";
    error_rotate_output_path = codes "logs/polaris-sidecar-error.log";
    rotation_max_age = pos 7;
    rotation_max_backups = pos 100;
    rotation_max_size = pos 100;
    output_level = codes "info";
  };
  recurse = record { enable = false; timeout_sec = pos 1; name_servers = [] };
  resolvers = default_resolvers;
  mesh_config = default_mesh_config;
  debugger = record { enable = true; port = pos 50000 };
  dns_enabled = false;
  mesh_enabled = false;
}
