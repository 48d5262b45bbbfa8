-- ===== src/Tests/Proxies.antt =====
-- What the sidecar does for the proxies of a mesh: internal/mesh.
use polaris_sidecar.Config.Env.{Env}
use polaris_sidecar.Mesh.CaClient.{
  HttpResponse, create_certificate, get_bundle, get_bundle-unsigned,
}
use polaris_sidecar.Mesh.Metrics.{InstanceMetricKey, find_value, read_stats}
use polaris_sidecar.Mesh.Metrics.Conserved.{
  Grows, GrowsOnceListed, Tick, count_success, last_success, report_ticks, report_ticks_lem,
}
use polaris_sidecar.Mesh.Options.{MtlsOption}
use polaris_sidecar.Mesh.RateLimit.{
  Descriptor, QuotaRequest, QuotaResponse, RateLimitRequest, RateLimitResponse, add_descriptors,
  add_entries, build_quota_request, over_limit, sent, should_rate_limit, trim_domain,
}
use polaris_sidecar.Mesh.RateLimit.Answers.{should_rate_limit_lem}
use polaris_sidecar.Mesh.RateLimit.Quota.{Asks, build_quota_request-Asks}
use polaris_sidecar.Mesh.Rotator.{Attempt}
use polaris_sidecar.Prelude.{
  All, List, Option, [], arith, false, length, none, refl, some, true, ℕ, ◌↔◌, ◌∷◌, ◌≡◌,
}
use polaris_sidecar.Prelude.Int.{pos, ℤ}
use polaris_sidecar.Prelude.Text.{Str, codes, has_suffix, str_eq}

abbrev new_request : QuotaRequest (Str × Str)
new_request = record { namespace = []; service = []; method = []; token = 1; arguments = [] }

abbrev label : Str → Str → Str × Str
label k v = (k, v)

abbrev descriptors : List Descriptor
descriptors =
    some (
      record { key = codes ":path"; value = codes "/a" }
      ∷ record { key = codes "user"; value = codes "u1" }
      ∷ [])
    ∷ none
    ∷ []

build_quota_request-Asks_example :
    Asks new_request label
      (codes "default")
      (codes "shop.default")
      3
      descriptors
      (build_quota_request new_request label (codes "default") (codes "shop.default") 3 descriptors)
build_quota_request-Asks_example =
    build_quota_request-Asks new_request label (codes "default") (codes "shop.default") 3
      descriptors refl refl

trimmed :
    build_quota_request new_request label (codes "default") (codes "shop.default") 3 descriptors
    ≡ record {
      namespace = codes "default";
      service = codes "shop";
      method = codes "/a";
      token = 3;
      arguments = (codes "user", codes "u1") ∷ [];
    }
unfolding build_quota_request add_descriptors add_entries trim_domain has_suffix str_eq
trimmed = refl

abbrev rls_request : RateLimitRequest
rls_request = record { domain = codes "shop.default"; hits_addend = 0; descriptors = descriptors }

abbrev get_quota : QuotaRequest (Str × Str) → Option (Option QuotaResponse)
get_quota q = some (some (record { limited = true; info = codes "slow" }))

should_rate_limit_lem_example :
    (r : RateLimitResponse) × (should_rate_limit new_request label get_quota
        (codes "default")
        rls_request
      ≡ sent r)
    × ((r.overall_code ≡ over_limit) ↔ (true ≡ true))
    × (length r.statuses ≡ 2)
    × All (λ c. c ≡ r.overall_code) r.statuses
    × (r.raw_body ≡ codes "slow")
should_rate_limit_lem_example =
    should_rate_limit_lem new_request label get_quota (codes "default") rls_request
      (record { limited = true; info = codes "slow" }) refl

abbrev fails : Attempt
fails = record { failed = true; cancelled = false }

abbrev works : Attempt
works = record { failed = false; cancelled = false }

abbrev rejected : HttpResponse
rejected = record {
  status_code = 403;
  decoded =
      some
        (record { cert_chain = codes "chain"; root_cert = codes "root"; message = codes "denied" });
  close_ok = true;
}

get_bundle-unsigned_example :
    get_bundle (some (codes "key")) true (create_certificate true (some rejected))
    ≡ some (record { root_ca = []; cert_chain = []; priv_key = codes "key" })
get_bundle-unsigned_example = get_bundle-unsigned rejected (codes "key") refl refl

abbrev empty_option : MtlsOption
empty_option = record {
  network = [];
  address = [];
  cryptomb_poll_delay = pos 0;
  rotate_period = pos 0;
  failed_retry_delay = pos 0;
  namespace = codes "ns";
  service_account = codes "sa";
  ca_server = codes "ca:8888";
  rsa_key_bits = pos 0;
  ttl = pos 0;
}

abbrev bare_env : Env
bare_env name = []

abbrev no_duration : Str → Option ℤ
no_duration s = none

abbrev metric_key : InstanceMetricKey
metric_key = record { cluster_name = codes "shop"; host = codes "10.0.0.1"; port = 80 }

abbrev listing : ℕ → ℕ → Tick
listing at n = (at, some (at, (codes "rq_success", n) ∷ []))

report_ticks_lem_example :
    count_success
      (report_ticks metric_key ((1, none) ∷ listing 2 3 ∷ (3, none) ∷ listing 4 5 ∷ []) (9, []))
    ≡ last_success ((1, none) ∷ listing 2 3 ∷ (3, none) ∷ listing 4 5 ∷ []) 0
unfolding find_value read_stats str_eq Grows GrowsOnceListed
report_ticks_lem_example =
    report_ticks_lem metric_key ((1, none) ∷ listing 2 3 ∷ (3, none) ∷ listing 4 5 ∷ []) 9 [] refl
      (omega arith, (omega arith, (omega arith, (omega arith, omega arith, tt))))
