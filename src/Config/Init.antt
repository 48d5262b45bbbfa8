-- ===== src/Config/Init.antt =====
-- InitConfig of internal/bootstrap/config/base.go.
use polaris_sidecar.Config.{BootConfig, SidecarConfig, default_sidecar_config}
use polaris_sidecar.Config.Accepted.{IsValid, verify_lem}
use polaris_sidecar.Config.Entries.{done_ne_panic}
use polaris_sidecar.Config.Env.{Env}
use polaris_sidecar.Config.Merge.{BootError, merge_boot_config, merge_env}
use polaris_sidecar.Config.Priority.{Prioritized, merge_boot_config-merge_env}
use polaris_sidecar.Config.Verify.{VerifyError, verify}
use polaris_sidecar.Prelude.{
  List, Option, Outcome, Outcome-cases, [], arith, done, inl, inr, none, of_done, panic, refl, some,
  subst, sym, ◌>>=◌, ◌∙◌, ◌∷◌, ◌≡◌,
}

pub data Initialized : Type 0 where
  configured : SidecarConfig → Initialized
  file_failed : Initialized
  boot_failed : List BootError → Initialized
  verify_failed : List VerifyError → Initialized

finish_verify : SidecarConfig × List VerifyError → Initialized
finish_verify (s, []) = configured s
finish_verify (s, e ∷ errs) = verify_failed (e ∷ errs)

finish_boot : SidecarConfig × List BootError → Initialized
unfolding finish_verify
finish_boot (s, []) = finish_verify (verify s)
finish_boot (s, e ∷ errs) = boot_failed (e ∷ errs)

-- `merge_file` reads the file and decodes it over a configuration; `none` is an error.
unfoldable pub init_config :
    (SidecarConfig → Option SidecarConfig) → Env → BootConfig → Outcome Initialized
unfolding finish_boot
init_config merge_file env boot = elim (merge_file default_sidecar_config) [
  | none ↦ done file_failed
  | some s ↦ do s' ← merge_env env s; done (finish_boot (merge_boot_config boot s'))
]

of_configured : (r s : SidecarConfig) → configured r ≡ configured s → r ≡ s
of_configured r s h = cc

finish_verify_lem :
    (m : SidecarConfig × List VerifyError) (s : SidecarConfig)
    → finish_verify m ≡ configured s
    → (m.0 ≡ s) × (m.1 ≡ [])
unfolding finish_verify
finish_verify_lem (r, []) s h = (of_configured r s h, refl)
finish_verify_lem (r, e ∷ errs) s h = cc

finish_boot_lem :
    (m : SidecarConfig × List BootError) (s : SidecarConfig)
    → finish_boot m ≡ configured s
    → ((verify m.0).0 ≡ s) × ((verify m.0).1 ≡ []) × (m.1 ≡ [])
unfolding finish_boot
finish_boot_lem (r, []) s h = let (a, b) = finish_verify_lem (verify r) s h in (a, b, refl)
finish_boot_lem (r, e ∷ errs) s h = cc

-- A configuration that is verified and accepted is valid with its flags set.
verified_IsValid : (r : SidecarConfig) → (verify r).1 ≡ [] → IsValid (verify r).0
verified_IsValid r h =
    let (valid, dns, mesh) = verify_lem r in
    let v = valid.0 h in
    unfold verify in
    record {
      output_level = v.output_level;
      max_age = v.max_age;
      max_backups = v.max_backups;
      max_size = v.max_size;
      match_level = v.match_level;
      bind = v.bind;
      port = v.port;
      timeout = v.timeout;
      some_resolver = v.some_resolver;
      entries = v.entries;
      some_enabled = ground (arith, v.some_enabled, dns, mesh);
    }

verified_Prioritized :
    (env : Env) (config : BootConfig) (s r : SidecarConfig)
    → Prioritized env config s r
    → Prioritized env config s (verify r).0
unfolding verify
verified_Prioritized env config s r h = record {
  bind = h.bind;
  port = h.port;
  namespace = h.namespace;
  recurse_enable = h.recurse_enable;
  recurse_timeout = h.recurse_timeout;
  output_level = h.output_level;
}

merged_config :
    (merge_file : SidecarConfig → Option SidecarConfig) (env : Env) (boot : BootConfig)
    (f s' : SidecarConfig)
    → merge_file default_sidecar_config ≡ some f
    → merge_env env f ≡ done s'
    → init_config merge_file env boot ≡ done (finish_boot (merge_boot_config boot s'))
unfolding init_config
merged_config merge_file env boot f s' e g = rw (e, init_config, g)

merge_panic :
    (merge_file : SidecarConfig → Option SidecarConfig) (env : Env) (boot : BootConfig)
    (f : SidecarConfig)
    → merge_file default_sidecar_config ≡ some f
    → merge_env env f ≡ panic
    → init_config merge_file env boot ≡ panic
unfolding init_config
merge_panic merge_file env boot f e g = rw (e, init_config, g)

-- A configuration that comes out is valid. Its address, its port, its namespace and the fallback's
-- switch and timeout are those of the boot flags, of the environment or of the file, the first of
-- these that sets them to a value that can be read; its log level is that of the boot flags alone.
pub init_config_lem :
    (merge_file : SidecarConfig → Option SidecarConfig) (env : Env) (boot : BootConfig)
    (f s : SidecarConfig)
    → merge_file default_sidecar_config ≡ some f
    → init_config merge_file env boot ≡ done (configured s)
    → IsValid s × Prioritized env boot f s
init_config_lem merge_file env boot f s e h = elim (Outcome-cases (merge_env env f)) [
  | inl (s', g) ↦
      let (a, b, c) =
        finish_boot_lem (merge_boot_config boot s') s
          (of_done _ _ (sym (merged_config merge_file env boot f s' e g) ∙ h)) in
      let p = merge_boot_config-merge_env env boot f s' g c in
      (
        subst IsValid a (verified_IsValid _ b),
        subst (Prioritized env boot f) a (verified_Prioritized env boot f _ p),
      )
  | inr g ↦ absurd (done_ne_panic _ (configured s) h (merge_panic merge_file env boot f e g))
]
