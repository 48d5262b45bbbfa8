-- ===== src/Resolver/Recursor.antt =====
-- internal/resolver/recursor/base.go: the configuration of the fallback to other name servers.
pub mod Upstreams
pub mod Proxy
use polaris_sidecar.Config.Init.{configured}
use polaris_sidecar.Prelude.{
  Bool, List, Option, [], false, if◌then◌else◌, length, ltb, none, not, some, true, ℕ, ◌&&◌, ◌++◌,
  ◌∷◌,
}
use polaris_sidecar.Prelude.Int.{gtb, pos, ℤ}
use polaris_sidecar.Prelude.Sets.{add, member}
use polaris_sidecar.Prelude.Text.{Str, codes, str_eq}

-- `recursor.Config`
pub record Config : Type 0 where
  pub ndots : ℕ
  pub search : List Str
  pub timeout : ℤ
  pub attempts : ℤ
  pub upstream : List Str

-- `dns.ClientConfig`, what miekg/dns reads from /etc/resolv.conf.
pub record ClientConfig : Type 0 where
  pub servers : List Str
  pub search : List Str
  pub ndots : ℕ
  pub timeout : ℤ
  pub attempts : ℤ

abbrev pub local_ip : Str
local_ip = codes "127.0.0.1"

abbrev pub port_suffix : Str
port_suffix = codes ":53"

unfoldable pub get_bigger : ℤ → ℤ → ℤ
get_bigger a b = if gtb a b then a else b

unfoldable pub need_skip : Bool → Str → Bool
need_skip bind_localhost name_server =
    if str_eq name_server local_ip && bind_localhost then true else false

-- The loop of `mergeUpstream`, over the upstream list and the set of the servers seen.
unfoldable pub merge_upstream : Bool → List Str → List Str × List Str → List Str × List Str
unfolding need_skip
merge_upstream bind_localhost [] (upstream, seen) = (upstream, seen)
merge_upstream bind_localhost (n ∷ ns) (upstream, seen) = merge_upstream bind_localhost ns (
    if not (member n seen) && not (need_skip bind_localhost n)
    then (upstream ++ (n ++ port_suffix) ∷ [], add n seen)
    else (upstream, seen))

unfoldable pub fill_by_resolv_config : Config → ClientConfig → Config
unfolding get_bigger
fill_by_resolv_config r dns_config = record r {
  ndots = if ltb 0 dns_config.ndots then dns_config.ndots else 1;
  search = dns_config.search;
  attempts = get_bigger dns_config.attempts (pos (length r.upstream));
}

-- `none` is an error and `some none` the nil configuration of a host with no /etc/resolv.conf.
-- `is_file` and `client_config` are what the system and miekg/dns make of that file.
unfoldable pub init_recurse_config :
    Bool → Option ClientConfig → Bool → ℤ → List Str → Option (Option Config)
init_recurse_config is_file client_config bind_localhost timeout name_servers =
    if not is_file then some none else elim client_config [
      | none ↦ none
      | some dns_config ↦
          let configured = merge_upstream bind_localhost name_servers ([], []) in
          let merged = merge_upstream bind_localhost dns_config.servers configured in
          some (
            some (
              fill_by_resolv_config
                (record {
                  ndots = 0;
                  search = [];
                  timeout = get_bigger timeout dns_config.timeout;
                  attempts = pos 0;
                  upstream = merged.0;
                })
                dns_config))
    ]
