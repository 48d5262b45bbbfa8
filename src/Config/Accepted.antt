-- ===== src/Config/Accepted.antt =====
-- Which configurations verify of internal/bootstrap/config/verify.go accepts.
use polaris_sidecar.Config.{SidecarConfig}
use polaris_sidecar.Config.Verify.{
  VerifyError, bad_dns_ttl, empty_name, none_enabled, report, set_flags, string_to_level,
  string_to_match_level, verify, verify_fields, verify_resolvers,
}
use polaris_sidecar.Prelude.{
  All, Bool, List, [], ap, arith, false, inl, is_empty, not, refl, true, ℕ, ◌&&◌, ◌++◌, ◌+◌, ◌||◌,
  ◌↔◌, ◌∷◌, ◌≡◌, ◌≢◌, ◌⊎◌,
}
use polaris_sidecar.Prelude.Int.{gtb, is_neg, pos}
use polaris_sidecar.Prelude.Sets.{member}
use polaris_sidecar.Prelude.Text.{Str, str_eq, str_eq_iff}
use polaris_sidecar.Resolver.Plugin.{ConfigEntry, plugin_name_dns_agent, plugin_name_mesh_proxy}

-- A resolver of this name is enabled.
unfoldable pub is_enabled : Str → List ConfigEntry → Bool
is_enabled name [] = false
is_enabled name (c ∷ cs) = (c.enable && str_eq c.name name) || is_enabled name cs

abbrev pub IsEntry : ConfigEntry → Type 0
IsEntry c = (c.name ≢ []) × (is_neg c.dns_ttl ≡ false)

-- What a configuration must be like.
pub record IsValid (s : SidecarConfig) : Type 0 where
  pub output_level :
      (s.logger.output_level ≡ []) ⊎ (member s.logger.output_level string_to_level ≡ true)
  pub max_age : is_neg s.logger.rotation_max_age ≡ false
  pub max_backups : is_neg s.logger.rotation_max_backups ≡ false
  pub max_size : is_neg s.logger.rotation_max_size ≡ false
  pub match_level :
      (s.polaris_config.nearby_match_level ≡ [])
      ⊎ (member s.polaris_config.nearby_match_level string_to_match_level ≡ true)
  pub bind : s.bind ≢ []
  pub port : gtb s.port (pos 0) ≡ true
  pub timeout : gtb s.recurse.timeout_sec (pos 0) ≡ true
  pub some_resolver : is_empty s.resolvers ≡ false
  pub entries : All IsEntry s.resolvers
  pub some_enabled :
      (s.dns_enabled || is_enabled plugin_name_dns_agent s.resolvers ≡ true)
      ⊎ (s.mesh_enabled || is_enabled plugin_name_mesh_proxy s.resolvers ≡ true)

other_name :
    (s : Str) → str_eq s plugin_name_dns_agent ≡ true → str_eq s plugin_name_mesh_proxy ≡ false
unfolding str_eq
other_name s h =
    ap (λ t. str_eq t plugin_name_mesh_proxy) ((str_eq_iff s plugin_name_dns_agent).0 h)

set_flags_lem :
    (cs : List ConfigEntry) (dns mesh : Bool)
    → set_flags cs (dns, mesh)
      ≡ (dns || is_enabled plugin_name_dns_agent cs, mesh || is_enabled plugin_name_mesh_proxy cs)
unfolding set_flags is_enabled
set_flags_lem [] dns mesh = ground arith
set_flags_lem (c ∷ cs) dns mesh = ground (
  arith,
  other_name c.name,
  set_flags_lem cs dns mesh,
  set_flags_lem cs true mesh,
  set_flags_lem cs dns true,
)

append-none : {A : Type 0} (xs ys : List A) → (xs ++ ys ≡ []) ↔ ((xs ≡ []) × (ys ≡ []))
append-none [] ys = ((λ h. (refl, h)), λ h. h.1)
append-none (x ∷ xs) ys = ((λ h. cc), λ h. cc)

report-none : (b : Bool) (e : VerifyError) → (report b e ≡ []) ↔ (b ≡ false)
report-none true e = ((λ h. cc), λ h. cc)
report-none false e = ((λ h. refl), λ h. refl)

-- The errors of two checks, one behind the other.
both-none :
    (xs : List VerifyError) (b : Bool) (e : VerifyError)
    → (xs ++ report b e ≡ []) ↔ ((xs ≡ []) × (b ≡ false))
both-none xs b e = ground (arith, append-none xs (report b e), report-none b e)

nonempty : (s : Str) → (is_empty s ≡ false) ↔ (s ≢ [])
nonempty [] = ((λ h. cc), λ h. absurd (h refl))
nonempty (c ∷ s) = ((λ h e. cc), λ h. refl)

verify_resolvers-none :
    (idx : ℕ) (cs : List ConfigEntry) → (verify_resolvers idx cs ≡ []) ↔ All IsEntry cs
unfolding verify_resolvers
verify_resolvers-none idx [] = ((λ h. tt), λ h. refl)
verify_resolvers-none idx (c ∷ cs) = ground (
  arith,
  verify_resolvers-none (idx + 1) cs,
  nonempty c.name,
  report-none (is_empty c.name) (empty_name idx),
  both-none (report (is_empty c.name) (empty_name idx)) (is_neg c.dns_ttl) (bad_dns_ttl idx),
  append-none
      (report (is_empty c.name) (empty_name idx) ++ report (is_neg c.dns_ttl) (bad_dns_ttl idx))
      (verify_resolvers (idx + 1) cs),
)

fields-none :
    (s : SidecarConfig)
    → (verify_fields s ≡ []) ↔ (
        (not (is_empty s.logger.output_level) && not (member s.logger.output_level string_to_level)
          ≡ false)
        × ((is_neg s.logger.rotation_max_age
              || is_neg s.logger.rotation_max_backups
              || is_neg s.logger.rotation_max_size)
            ≡ false)
        × (not (is_empty s.polaris_config.nearby_match_level)
              && not (member s.polaris_config.nearby_match_level string_to_match_level)
            ≡ false)
        × (is_empty s.bind ≡ false)
        × (not (gtb s.port (pos 0)) ≡ false)
        × (not (gtb s.recurse.timeout_sec (pos 0)) ≡ false)
        × (is_empty s.resolvers ≡ false))
unfolding verify_fields
fields-none s = ground (arith, report-none _ _, both-none _ _ _)

listed :
    (l : Str) (ls : List Str)
    → (not (is_empty l) && not (member l ls) ≡ false) ↔ ((l ≡ []) ⊎ (member l ls ≡ true))
listed [] ls = ((λ h. inl refl), λ h. refl)
listed (c ∷ l) ls = ground arith

enabled-none :
    (s : SidecarConfig)
    → (report
          (not (set_flags s.resolvers (s.dns_enabled, s.mesh_enabled)).0
            && not (set_flags s.resolvers (s.dns_enabled, s.mesh_enabled)).1)
          none_enabled
        ≡ [])
      ↔ ((s.dns_enabled || is_enabled plugin_name_dns_agent s.resolvers ≡ true)
          ⊎ (s.mesh_enabled || is_enabled plugin_name_mesh_proxy s.resolvers ≡ true))
enabled-none s =
    rw (set_flags_lem s.resolvers s.dns_enabled s.mesh_enabled) (ground (arith, report-none _ _))

parts-none :
    (s : SidecarConfig)
    → ((verify s).1 ≡ []) ↔ (
        (verify_fields s ≡ [])
        × All IsEntry s.resolvers
        × ((s.dns_enabled || is_enabled plugin_name_dns_agent s.resolvers ≡ true)
            ⊎ (s.mesh_enabled || is_enabled plugin_name_mesh_proxy s.resolvers ≡ true)))
unfolding verify
parts-none s =
    let flags = set_flags s.resolvers (s.dns_enabled, s.mesh_enabled) in
    let last = report (not flags.0 && not flags.1) none_enabled in
    let all = append-none (verify_fields s ++ verify_resolvers 0 s.resolvers) last in
    let first = append-none (verify_fields s) (verify_resolvers 0 s.resolvers) in
    let entries = verify_resolvers-none 0 s.resolvers in
    let enabled = enabled-none s in
    (
      (λ h. let (a, b) = all.0 h in let (c, d) = first.0 a in (c, entries.0 d, enabled.0 b)),
      λ (c, d, b). all.1 (first.1 (c, entries.1 d), enabled.1 b),
    )

-- A configuration is accepted exactly if it is valid, and then the flags tell which resolvers are
-- enabled.
pub verify_lem :
    (s : SidecarConfig)
    → (((verify s).1 ≡ []) ↔ IsValid s)
      × ((verify s).0.dns_enabled ≡ (s.dns_enabled || is_enabled plugin_name_dns_agent s.resolvers))
      × ((verify s).0.mesh_enabled
          ≡ (s.mesh_enabled || is_enabled plugin_name_mesh_proxy s.resolvers))
verify_lem s =
    let level = listed s.logger.output_level string_to_level in
    let near = listed s.polaris_config.nearby_match_level string_to_match_level in
    let parts = parts-none s in
    let fields = fields-none s in
    let bind = nonempty s.bind in
    let flags = set_flags_lem s.resolvers s.dns_enabled s.mesh_enabled in
    (
      (
        (λ h.
            let (f, e, some_on) = parts.0 h in
            let (l, r, m, b, p, t, n) = fields.0 f in
            record {
              output_level = level.0 l;
              max_age = ground arith;
              max_backups = ground arith;
              max_size = ground arith;
              match_level = near.0 m;
              bind = bind.0 b;
              port = ground arith;
              timeout = ground arith;
              some_resolver = n;
              entries = e;
              some_enabled = some_on;
            }),
        λ v. parts.1 (
          fields.1 (
            level.1 v.output_level,
            ground (arith, v.max_age, v.max_backups, v.max_size),
            near.1 v.match_level,
            bind.1 v.bind,
            ground (arith, v.port),
            ground (arith, v.timeout),
            v.some_resolver,
          ),
          v.entries,
          v.some_enabled,
        ),
      ),
      unfold verify in ap (λ t. t.0) flags,
      unfold verify in ap (λ t. t.1) flags,
    )
