-- ===== src/Mesh/RateLimit/Start.antt =====
-- Run of internal/mesh/rls/server.go up to where it serves, and Destroy behind it.
use polaris_sidecar.Config.{RlsConfig, TlsInfo}
use polaris_sidecar.Mesh.RateLimit.{
  RateLimitServer, Released, destroy_rls, grpc_stopped, is_empty_tls, limiter_destroyed,
  listener_closed, socket_removed,
}
use polaris_sidecar.Prelude.{
  Bool, Bool-cases, List, Option, [], false, if◌then◌else◌, inl, inr, none, not, refl, some, true,
  ◌&&◌, ◌++◌, ◌||◌, ◌↔◌, ◌∷◌, ◌≡◌,
}
use polaris_sidecar.Prelude.Text.{Str, codes, str_eq}

-- Whether the directory of the socket can be made, the socket be listened on, the limiter of Polaris
-- be had, and the certificate be read.
pub record RlsHost : Type 0 where
  pub mkdir : Str → Bool
  pub listen : Str → Str → Bool
  pub limit_api : Bool
  pub read_cert : TlsInfo → Bool

pub data RlsError : Type 0 where
  no_directory no_listener no_limiter no_credentials : RlsError

module _ (host : RlsHost) where
  unfoldable pub has_credentials : Option TlsInfo → Bool
  unfolding is_empty_tls
  has_credentials none = true
  has_credentials (some t) = is_empty_tls (some t) || host.read_cert t

  -- What is set of the server when `Run` serves or returns, and the error that it sends.
  unfoldable pub start_rls : RateLimitServer → RateLimitServer × Option RlsError
  unfolding has_credentials
  start_rls svr =
      if str_eq svr.conf.network (codes "unix") && not (host.mkdir svr.conf.address)
      then (svr, some no_directory)
      else if not (host.listen svr.conf.network svr.conf.address)
      then (svr, some no_listener)
      else if not host.limit_api
      then (record svr { listener = true }, some no_limiter)
      else if not (has_credentials svr.conf.tls_info)
      then (record svr { listener = true; limiter = true }, some no_credentials)
      else (record svr { listener = true; limiter = true; grpc_svr = true }, none)

abbrev pub if_set : Bool → Released → List Released
if_set b r = if b then r ∷ [] else []

never : (e : RlsError) → (some e ≡ none) ↔ (false ≡ true)
never e = ((λ h. cc), λ h. cc)

and_true : (a b : Bool) → (a && b) ≡ true → a ≡ true
and_true true b h = refl
and_true false b h = h

-- Whatever stage fails, the server that is destroyed behind `Run` closes the listener exactly if it
-- had been opened, and destroys the limiter exactly if it had been made; the server of gRPC is
-- stopped exactly if there was no error. The directory of a socket is removed in any case.
pub destroy_rls-start_rls :
    (host : RlsHost) (dir : Str → Str) (namespace : Str) (conf : RlsConfig)
    → let svr : RateLimitServer = record {
      namespace = namespace;
      conf = conf;
      limiter = false;
      grpc_svr = false;
      listener = false;
      once = false;
    } in
      let unix = str_eq conf.network (codes "unix") in
      let opened_listener =
        not (unix && not (host.mkdir conf.address)) && host.listen conf.network conf.address in
      let made_limiter = opened_listener && host.limit_api in
      let serves = made_limiter && has_credentials host conf.tls_info in
      ((destroy_rls dir (start_rls host svr).0).1
        ≡ if_set made_limiter limiter_destroyed
          ++ if_set serves grpc_stopped
          ++ if_set opened_listener listener_closed
          ++ if_set unix (socket_removed (dir conf.address)))
      × (((start_rls host svr).1 ≡ none) ↔ (serves ≡ true))
unfolding destroy_rls start_rls
destroy_rls-start_rls host dir namespace conf =
    elim (Bool-cases (str_eq conf.network (codes "unix") && not (host.mkdir conf.address))) [
      | inl a ↦
          rw a (rw (and_true (str_eq conf.network (codes "unix")) _ a) refl, never no_directory)
      | inr a ↦ rw a (elim (Bool-cases (host.listen conf.network conf.address)) [
        | inr b ↦ rw b (refl, never no_listener)
        | inl b ↦ rw b (elim (Bool-cases host.limit_api) [
          | inr c ↦ rw c (refl, never no_limiter)
          | inl c ↦ rw c (elim (Bool-cases (has_credentials host conf.tls_info)) [
            | inr d ↦ rw d (refl, never no_credentials)
            | inl d ↦ rw d (refl, ((λ h. refl), λ h. refl))
          ])
        ])
      ])
    ]
