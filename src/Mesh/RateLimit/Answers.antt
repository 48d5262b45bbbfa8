-- ===== src/Mesh/RateLimit/Answers.antt =====
-- What the rate limit service of internal/mesh/rls/server.go answers.
use polaris_sidecar.Mesh.RateLimit.{
  Code, Descriptor, QuotaRequest, QuotaResponse, RateLimitRequest, RateLimitResponse, acquire,
  allowed, build_quota_request, over_limit, sent, should_rate_limit, statuses_of,
}
use polaris_sidecar.Prelude.{
  All, Bool, List, Option, [], ap, false, if◌then◌else◌, length, refl, some, suc, true, ◌==◌, ◌↔◌,
  ◌∷◌, ◌≡◌,
}
use polaris_sidecar.Prelude.Text.{Str}

statuses-length :
    {A : Type 0} (new_quota_request : QuotaRequest A) (build_argument : Str → Str → A)
    (ds : List Descriptor) (code : Code)
    → (length (statuses_of new_quota_request build_argument ds code) ≡ length ds)
      × All (λ c. c ≡ code) (statuses_of new_quota_request build_argument ds code)
unfolding statuses_of
statuses-length new_quota_request build_argument [] code = (refl, tt)
statuses-length new_quota_request build_argument (d ∷ ds) code =
    let (n, all) = statuses-length new_quota_request build_argument ds code in
    (ap (λ k. suc k) n, (refl, all))

limit_code :
    (limited : Bool) → ((if limited then over_limit else allowed) ≡ over_limit) ↔ (limited ≡ true)
limit_code true = ((λ h. refl), λ h. refl)
limit_code false = ((λ h. cc), λ h. cc)

-- Where Polaris answers, a response is sent with one status for each descriptor; all of them and
-- the overall code say over limit exactly if Polaris does. One unit is asked for where the request
-- names none.
pub should_rate_limit_lem :
    {A : Type 0} (new_quota_request : QuotaRequest A) (build_argument : Str → Str → A)
    (get_quota : QuotaRequest A → Option (Option QuotaResponse)) (namespace : Str)
    (req : RateLimitRequest) (resp : QuotaResponse)
    → get_quota (
        build_quota_request new_quota_request build_argument namespace req.domain
          (if req.hits_addend == 0 then 1 else req.hits_addend)
          req.descriptors)
      ≡ some (some resp)
    → (r : RateLimitResponse) × (should_rate_limit new_quota_request build_argument get_quota
          namespace req
        ≡ sent r)
      × ((r.overall_code ≡ over_limit) ↔ (resp.limited ≡ true))
      × (length r.statuses ≡ length req.descriptors)
      × All (λ c. c ≡ r.overall_code) r.statuses
      × (r.raw_body ≡ resp.info)
unfolding should_rate_limit acquire
should_rate_limit_lem new_quota_request build_argument get_quota namespace req resp e =
    let code = if resp.limited then over_limit else allowed in
    let (n, all) = statuses-length new_quota_request build_argument req.descriptors code in
    (
      record {
        overall_code = code;
        statuses = statuses_of new_quota_request build_argument req.descriptors code;
        raw_body = resp.info;
      },
      rw (e, should_rate_limit),
      limit_code resp.limited,
      n,
      all,
      refl,
    )
