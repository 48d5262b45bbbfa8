-- ===== src/Mesh/Options/Detected.antt =====
-- The options that init of internal/mesh/mtls/option.go leaves.
use polaris_sidecar.Config.Env.{Env, atoi, or_default}
use polaris_sidecar.Mesh.Options.{
  MtlsOption, ServiceAccount, add_scheme, completed, detect_account, detect_server, env_default_int,
  has_prefix, has_scheme, http, init_option, or_text, with_server,
}
use polaris_sidecar.Prelude.{
  Bool, Option, [], ap, false, if◌then◌else◌, inl, is_empty, none, not, of_some, refl, some, sym,
  true, ◌++◌, ◌∙◌, ◌∷◌, ◌≡◌,
}
use polaris_sidecar.Prelude.Int.{is_zero, pos, ℤ}
use polaris_sidecar.Prelude.Text.{Str, codes, to_lower}

lower_http : (s : Str) → has_scheme (http ++ s) ≡ true
unfolding has_scheme has_prefix to_lower
lower_http s = refl

choose_scheme :
    (b : Bool) (ca_server : Str)
    → has_scheme ca_server ≡ b
    → has_scheme (if b then ca_server else http ++ ca_server) ≡ true
choose_scheme true ca_server h = h
choose_scheme false ca_server h = lower_http ca_server

add_scheme-has_scheme : (ca_server : Str) → has_scheme (add_scheme ca_server) ≡ true
unfolding add_scheme
add_scheme-has_scheme ca_server = choose_scheme (has_scheme ca_server) ca_server refl

or_text_nonempty : (s t : Str) → is_empty t ≡ false → is_empty (or_text s t) ≡ false
or_text_nonempty [] t h = h
or_text_nonempty (c ∷ s) t h = refl

found_scheme :
    (ca_server found : Str)
    → (if is_empty ca_server then none else some (add_scheme ca_server)) ≡ some found
    → has_scheme found ≡ true
found_scheme [] found e = cc
found_scheme (c ∷ ca_server) found e =
    ap has_scheme (of_some found (add_scheme (c ∷ ca_server)) (sym e))
    ∙ add_scheme-has_scheme (c ∷ ca_server)

module _ (env : Env) (parse_duration : Str → Option ℤ) (account : Option ServiceAccount) where
  -- What the options are completed with.
  pub record Complete (opt r : MtlsOption) : Type 0 where
    pub has_network : is_empty r.network ≡ false
    pub has_address : is_empty r.address ≡ false
    pub called : has_scheme r.ca_server ≡ true
    pub detected :
        detect_account env parse_duration account opt.namespace opt.service_account
        ≡ some (r.namespace, r.service_account)
    pub key_bits : r.rsa_key_bits ≡ (
        if not (is_zero opt.rsa_key_bits)
        then opt.rsa_key_bits
        else or_default (atoi (env (codes "POLARIS_SIDECAR_MTLS_KEY_BITS"))) (pos 2048))

  detect_server-scheme :
      (ca_server found : Str)
      → detect_server env parse_duration account ca_server ≡ some found
      → has_scheme found ≡ true
  unfolding detect_server
  detect_server-scheme ca_server found e = found_scheme _ found e

  init_option-step :
      (opt : MtlsOption) (ns sa ca_server : Str)
      → detect_account env parse_duration account opt.namespace opt.service_account ≡ some (ns, sa)
      → detect_server env parse_duration account opt.ca_server ≡ some ca_server
      → init_option env parse_duration account opt
        ≡ inl (completed env parse_duration account opt (ns, sa) ca_server)
  unfolding init_option with_server
  init_option-step opt ns sa ca_server e f = rw (e, init_option, f, with_server)

  completed-Complete :
      (opt : MtlsOption) (ns sa ca_server : Str)
      → detect_account env parse_duration account opt.namespace opt.service_account ≡ some (ns, sa)
      → detect_server env parse_duration account opt.ca_server ≡ some ca_server
      → Complete opt (completed env parse_duration account opt (ns, sa) ca_server)
  unfolding completed env_default_int
  completed-Complete opt ns sa ca_server e f = record {
    has_network = or_text_nonempty opt.network (codes "unix") refl;
    has_address = or_text_nonempty opt.address _ refl;
    called = detect_server-scheme opt.ca_server ca_server f;
    detected = e;
    key_bits = refl;
  }

  -- Where an account and a server are detected the options are complete: they have a network, an
  -- address, the account that is detected, and a server that has a scheme.
  pub init_option_lem :
      (opt : MtlsOption) (ns sa ca_server : Str)
      → detect_account env parse_duration account opt.namespace opt.service_account ≡ some (ns, sa)
      → detect_server env parse_duration account opt.ca_server ≡ some ca_server
      → (r : MtlsOption) × (init_option env parse_duration account opt ≡ inl r) × Complete opt r
  init_option_lem opt ns sa ca_server e f = (
    completed env parse_duration account opt (ns, sa) ca_server,
    init_option-step opt ns sa ca_server e f,
    completed-Complete opt ns sa ca_server e f,
  )
