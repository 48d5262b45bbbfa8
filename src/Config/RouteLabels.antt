-- ===== src/Config/RouteLabels.antt =====
-- The route labels that internal/bootstrap/config/config.go gives the resolver that asks Polaris.
use polaris_sidecar.Config.{BootConfig}
use polaris_sidecar.Config.Env.{Env, atoi, or_default}
use polaris_sidecar.Config.Location.{get_env-default}
use polaris_sidecar.Config.Merge.{boot_resolver, boot_route_labels, merge_dns_agent_env}
use polaris_sidecar.Config.Priority.{env_int_lem, env_string_lem, or_else}
use polaris_sidecar.Labels.{parse_labels}
use polaris_sidecar.Prelude.{
  Bool, Option, [], ap, arith, false, is_empty, none, refl, some, true, ◌∙◌, ◌∷◌, ◌≡◌,
}
use polaris_sidecar.Prelude.Assoc.{Assoc, insert, lookup, lookup-insert}
use polaris_sidecar.Prelude.Text.{Str, codes, str_eq, str_eq_refl}
use polaris_sidecar.Qname.{add_quota}
use polaris_sidecar.Resolver.DnsAgent.{
  ResolverDiscovery, initialize, or_empty, parse_options, route_labels_key,
}
use polaris_sidecar.Resolver.Plugin.{
  ConfigEntry, OptionValue, label_map, plugin_name_dns_agent, text,
}

insert_nonempty :
    (k : Str) (v : OptionValue) (m : Assoc OptionValue) → is_empty (insert k v m) ≡ false
unfolding insert
insert_nonempty k v [] = refl
insert_nonempty k v ((j, w) ∷ m) = ground arith

parse_options-insert :
    (labels : Assoc Str) (m : Assoc OptionValue)
    → parse_options (insert route_labels_key (label_map labels) m) ≡ none
unfolding parse_options
parse_options-insert labels m = rw (
  insert_nonempty route_labels_key (label_map labels) m,
  parse_options,
  lookup-insert route_labels_key route_labels_key (label_map labels) m,
  str_eq_refl route_labels_key,
)

initialize-none :
    (api : Bool) (c : ConfigEntry)
    → parse_options (or_empty c.options) ≡ none
    → initialize api c ≡ none
unfolding initialize
initialize-none api c e = rw (e, initialize)

boot_route_labels-some :
    (route_labels : Str) (options : Option (Assoc OptionValue)) (label : Str × Str)
    (rest : Assoc Str)
    → parse_labels route_labels ≡ some (label ∷ rest)
    → boot_route_labels route_labels options
      ≡ some (insert route_labels_key (label_map (label ∷ rest)) (or_empty options))
unfolding boot_route_labels
boot_route_labels-some route_labels options label rest p = rw (p, boot_route_labels)

boot_resolver-options :
    (config : BootConfig) (c : ConfigEntry)
    → str_eq c.name plugin_name_dns_agent ≡ true
    → (boot_resolver config c).0.options
      ≡ boot_route_labels config.resolver_dns_agent_route_labels c.options
unfolding boot_resolver
boot_resolver-options config c n = rw n

-- Route labels that a boot flag gives are stored as a map, where the resolver reads a string: it
-- does not initialize.
pub initialize-boot_resolver :
    (config : BootConfig) (c : ConfigEntry) (api : Bool) (label : Str × Str) (rest : Assoc Str)
    → str_eq c.name plugin_name_dns_agent ≡ true
    → parse_labels config.resolver_dns_agent_route_labels ≡ some (label ∷ rest)
    → initialize api (boot_resolver config c).0 ≡ none
initialize-boot_resolver config c api label rest n p =
    initialize-none api (boot_resolver config c).0 (
      ap (λ o. parse_options (or_empty o))
        (boot_resolver-options config c n
          ∙ boot_route_labels-some config.resolver_dns_agent_route_labels c.options label rest p)
      ∙ parse_options-insert (label ∷ rest) (or_empty c.options))

initialize-some :
    (c : ConfigEntry) (m : Assoc Str)
    → parse_options (or_empty c.options) ≡ some m
    → initialize true c
      ≡ some (record {
        suffix = add_quota c.suffix;
        dns_ttl = c.dns_ttl;
        route_labels_map = m;
        namespace = c.namespace;
      })
unfolding initialize
initialize-some c m e = rw (e, initialize)

merge_dns_agent_env-options :
    (env : Env) (c : ConfigEntry)
    → is_empty (env (codes "SIDECAR_DNS_ROUTE_LABELS")) ≡ false
    → (merge_dns_agent_env env c).options
      ≡ some ((route_labels_key, text (env (codes "SIDECAR_DNS_ROUTE_LABELS"))) ∷ [])
unfolding merge_dns_agent_env
merge_dns_agent_env-options env c h = rw (get_env-default env (codes "SIDECAR_DNS_ROUTE_LABELS"), h)

parse_options-text :
    (s : Str) → parse_options ((route_labels_key, text s) ∷ []) ≡ some (or_empty (parse_labels s))
unfolding parse_options lookup str_eq
parse_options-text s = refl

-- Route labels of the environment reach the resolver as they are parsed, whatever options the
-- file has.
pub initialize-merge_dns_agent_env :
    (env : Env) (c : ConfigEntry)
    → is_empty (env (codes "SIDECAR_DNS_ROUTE_LABELS")) ≡ false
    → (r : ResolverDiscovery) × (initialize true (merge_dns_agent_env env c) ≡ some r)
      × (r.route_labels_map ≡ or_empty (parse_labels (env (codes "SIDECAR_DNS_ROUTE_LABELS"))))
      × (r.suffix ≡ add_quota (or_else (env (codes "SIDECAR_DNS_SUFFIX")) c.suffix))
      × (r.dns_ttl ≡ or_default (atoi (env (codes "SIDECAR_DNS_TTL"))) c.dns_ttl)
unfolding merge_dns_agent_env
initialize-merge_dns_agent_env env c h =
    let labels = env (codes "SIDECAR_DNS_ROUTE_LABELS") in
    let c' = merge_dns_agent_env env c in
    (
      record {
        suffix = add_quota c'.suffix;
        dns_ttl = c'.dns_ttl;
        route_labels_map = or_empty (parse_labels labels);
        namespace = c'.namespace;
      },
      initialize-some c' (or_empty (parse_labels labels)) (
          ap (λ o. parse_options (or_empty o)) (merge_dns_agent_env-options env c h)
          ∙ parse_options-text labels),
      refl,
      ap add_quota (env_string_lem env (codes "SIDECAR_DNS_SUFFIX") c.suffix),
      env_int_lem env (codes "SIDECAR_DNS_TTL") c.dns_ttl,
    )
