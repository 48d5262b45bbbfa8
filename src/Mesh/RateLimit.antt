-- ===== src/Mesh/RateLimit.antt =====
-- internal/mesh/rls: the rate limit service, which asks Polaris for quota.
pub mod Quota
pub mod Answers
pub mod Start
use polaris_sidecar.Config.{RlsConfig, TlsInfo, default_rls_address}
use polaris_sidecar.Prelude.{
  Bool, List, Option, [], false, if◌then◌else◌, is_empty, none, not, some, true, ℕ, ◌&&◌, ◌++◌,
  ◌==◌, ◌||◌, ◌∷◌,
}
use polaris_sidecar.Prelude.Text.{Str, codes, cut_end, has_suffix, str_eq}

unfoldable pub init_rls : RlsConfig → RlsConfig
init_rls c =
    if str_eq c.network (codes "unix") && is_empty c.address
    then record c { address = default_rls_address }
    else c

-- `IsEmpty` of a pointer to a `TLSInfo`.
unfoldable pub is_empty_tls : Option TlsInfo → Bool
is_empty_tls none = true
is_empty_tls (some t) =
    if not (is_empty t.cert_file) && not (is_empty t.key_file) then false else true

-- What is destroyed with the server.
pub data Released : Type 0 where
  limiter_destroyed grpc_stopped listener_closed : Released
  socket_removed : Str → Released

-- The fields that are set while the server runs are told by whether they are.
pub record RateLimitServer : Type 0 where
  pub namespace : Str
  pub conf : RlsConfig
  pub limiter : Bool
  pub grpc_svr : Bool
  pub listener : Bool
  pub once : Bool

unfoldable pub new_rls : Str → Option RlsConfig → Option RateLimitServer
unfolding init_rls
new_rls namespace none = none
new_rls namespace (some conf) = some (record {
  namespace = namespace;
  conf = init_rls conf;
  limiter = false;
  grpc_svr = false;
  listener = false;
  once = false;
})

abbrev released : Bool → Released → List Released
released b r = if b then r ∷ [] else []

-- `Destroy`; `dir` is `filepath.Dir`.
unfoldable pub destroy_rls : (Str → Str) → RateLimitServer → RateLimitServer × List Released
destroy_rls dir svr = if svr.once then (svr, []) else (
  record svr { once = true },
  released svr.limiter limiter_destroyed
      ++ released svr.grpc_svr grpc_stopped
      ++ released svr.listener listener_closed
      ++ released (str_eq svr.conf.network (codes "unix")) (socket_removed (dir svr.conf.address)),
)

-- The descriptors of Envoy; a nil descriptor is `none`.
pub record Entry : Type 0 where
  pub key : Str
  pub value : Str

abbrev pub Descriptor : Type 0
Descriptor = Option (List Entry)

pub record RateLimitRequest : Type 0 where
  pub domain : Str
  pub hits_addend : ℕ
  pub descriptors : List Descriptor

-- `polarisgo.QuotaRequest` with the fields that its setters set.
pub record QuotaRequest (A : Type 0) : Type 0 where
  pub namespace : Str
  pub service : Str
  pub method : Str
  pub token : ℕ
  pub arguments : List A

-- What `GetQuota` and the future give.
pub record QuotaResponse : Type 0 where
  pub limited : Bool
  pub info : Str

pub data Code : Type 0 where
  allowed over_limit : Code

pub record RateLimitResponse : Type 0 where
  pub overall_code : Code
  pub statuses : List Code
  pub raw_body : Str

-- What is returned: an error, nil without an error, or a response.
pub data Answer : Type 0 where
  quota_failed no_quota : Answer
  sent : RateLimitResponse → Answer

abbrev pub path_key : Str
path_key = codes ":path"

module _ {A : Type 0} (new_quota_request : QuotaRequest A) (build_argument : Str → Str → A) where
  unfoldable pub add_entries : List Entry → QuotaRequest A → QuotaRequest A
  add_entries [] req = req
  add_entries (e ∷ es) req = add_entries es (
      if str_eq e.key path_key
      then record req { method = e.value }
      else record req { arguments = req.arguments ++ build_argument e.key e.value ∷ [] })

  unfoldable pub add_descriptors : List Descriptor → QuotaRequest A → QuotaRequest A
  unfolding add_entries
  add_descriptors [] req = req
  add_descriptors (none ∷ ds) req = add_descriptors ds req
  add_descriptors (some es ∷ ds) req = add_descriptors ds (add_entries es req)

  unfoldable pub trim_domain : Str → Str → Str
  trim_domain domain namespace =
      if has_suffix domain (b'.' ∷ namespace) then cut_end domain (b'.' ∷ namespace) else domain

  unfoldable pub build_quota_request : Str → Str → ℕ → List Descriptor → QuotaRequest A
  unfolding add_descriptors trim_domain
  build_quota_request namespace domain acquire_quota descriptors =
      if is_empty domain || is_empty namespace
      then new_quota_request
      else record (add_descriptors descriptors new_quota_request) {
        namespace = namespace;
        service = trim_domain domain namespace;
        token = acquire_quota;
      }

  unfoldable pub acquire : ℕ → ℕ
  acquire hits_addend = if hits_addend == 0 then 1 else hits_addend

  unfoldable pub statuses_of : List Descriptor → Code → List Code
  statuses_of [] code = []
  statuses_of (d ∷ ds) code = code ∷ statuses_of ds code

  unfoldable pub response_of : RateLimitRequest → QuotaResponse → RateLimitResponse
  unfolding statuses_of
  response_of req resp =
      let overall_code = if resp.limited then over_limit else allowed in
      record {
        overall_code = overall_code;
        statuses = statuses_of req.descriptors overall_code;
        raw_body = resp.info;
      }

  -- `ShouldRateLimit`; `get_quota` fails with `none`, and `some none` is a nil future.
  unfoldable pub should_rate_limit :
      (QuotaRequest A → Option (Option QuotaResponse)) → Str → RateLimitRequest → Answer
  unfolding build_quota_request acquire response_of
  should_rate_limit get_quota namespace req =
      elim (get_quota
        (build_quota_request namespace req.domain (acquire req.hits_addend) req.descriptors)) [
          | none ↦ quota_failed
          | some none ↦ no_quota
          | some (some resp) ↦ sent (response_of req resp)
        ]
