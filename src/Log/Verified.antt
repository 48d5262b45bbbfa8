-- ===== src/Log/Verified.antt =====
-- The logger of a configuration that internal/bootstrap/config/verify.go accepts.
use polaris_sidecar.Config.{SidecarConfig}
use polaris_sidecar.Config.Accepted.{verify_lem}
use polaris_sidecar.Config.Verify.{string_to_level, verify}
use polaris_sidecar.Log.{Level, Options, level_table, set_default_option, string_level}
use polaris_sidecar.Log.Configure.{Logging, configure}
use polaris_sidecar.Log.Configured.{Found, configure_lem}
use polaris_sidecar.Log.Prepare.{Host}
use polaris_sidecar.Log.Replaced.{is_some, known}
use polaris_sidecar.Log.Routing.{sinks_ready}
use polaris_sidecar.Log.Scope.{Scope}
use polaris_sidecar.Prelude.{
  List, [], ap, arith, inl, inr, none, refl, true, ◌++◌, ◌↔◌, ◌∙◌, ◌∷◌, ◌≡◌,
}
use polaris_sidecar.Prelude.Assoc.{Assoc, lookup}
use polaris_sidecar.Prelude.Sets.{member}
use polaris_sidecar.Prelude.Text.{Str, codes}

abbrev keys : Assoc Level → List Str
keys [] = []
keys ((k, l) ∷ m) = k ∷ keys m

lookup-keys : (s : Str) (m : Assoc Level) → is_some (lookup s m) ≡ member s (keys m)
unfolding lookup member
lookup-keys s [] = refl
lookup-keys s ((k, l) ∷ m) = ground (arith, lookup-keys s m)

member-append : (s : Str) (m n : List Str) → member s m ≡ true → member s (m ++ n) ≡ true
unfolding member
member-append s [] n h = cc
member-append s (k ∷ m) n h = ground (arith, member-append s m n)

-- Every level that the verification accepts has an entry in the table.
member-known : (s : Str) → member s string_to_level ≡ true → known s ≡ true
unfolding known string_level
member-known s h =
    ground (arith, lookup-keys s level_table, member-append s string_to_level (codes "none" ∷ []) h)

-- If the configuration is verified and leaves the stack trace level out, `Configure` of its logger
-- can only fail on the paths: it succeeds exactly if the sinks can be opened.
pub configure-verify :
    (s : SidecarConfig) (host : Host) (options : Options) (logging : Logging) (d : Scope)
    → (verify s).1 ≡ []
    → options.output_level ≡ s.logger.output_level
    → options.stacktrace_level ≡ []
    → Found logging.scopes d
    → ((configure host options logging).error ≡ none)
      ↔ (sinks_ready host (set_default_option options) ≡ true)
unfolding known
configure-verify s host options logging d v e f h =
    let valid = (verify_lem s).0.0 v in
    let level : known options.output_level ≡ true = elim valid.output_level [
      | inl a ↦ ap known (e ∙ a)
      | inr a ↦ ap known e ∙ member-known s.logger.output_level a
    ] in
    ground (arith, ap known f, configure_lem host options logging d h)
