-- ===== src/Tests/Fallback.antt =====
-- The fallback of internal/resolver/recursor.
use polaris_sidecar.Prelude.{
  Bool-cases, Option, [], arith, done, false, get_elem?, if◌then◌else◌, inl, inr, length, none, not,
  refl, some, true, ℕ, ◌%◌, ◌&&◌, ◌*◌, ◌++◌, ◌+◌, ◌||◌, ◌∷◌, ◌≡◌, ◌≤◌, ◌⊎◌,
}
use polaris_sidecar.Prelude.Int.{pos, ◌≤ℤ◌}
use polaris_sidecar.Prelude.Sets.{Distinct, member}
use polaris_sidecar.Prelude.Text.{Str, codes, count, str_eq}
use polaris_sidecar.Resolver.Dns.{Msg, Question, empty_msg, rcode_name_error, rcode_success}
use polaris_sidecar.Resolver.Recursor.{
  ClientConfig, Config, init_recurse_config, local_ip, port_suffix,
}
use polaris_sidecar.Resolver.Recursor.Proxy.{Client, Exchanged, Proxy, expand_query, handle_dns}
use polaris_sidecar.Resolver.Recursor.Proxy.Attempts.{Concluded, Counts, handle_dns-retries}
use polaris_sidecar.Resolver.Recursor.Proxy.Reach.{handle_dns-healthy}
use polaris_sidecar.Resolver.Recursor.Proxy.Retry.{IsAlone, IsHealthy, NeverNil}
use polaris_sidecar.Resolver.Recursor.Proxy.Rotation.{draw, draw_lem}
use polaris_sidecar.Resolver.Recursor.Upstreams.{init_recurse_config_lem}

abbrev config : Config
config = record {
  ndots = 1;
  search = codes "svc.local" ∷ [];
  timeout = pos 1;
  attempts = pos 2;
  upstream = codes "a:53" ∷ codes "b:53" ∷ [];
}

abbrev proxy : Proxy
proxy = record {
  config = config;
  rotate = record { servers = codes "a:53" ∷ codes "b:53" ∷ []; index = 0 };
}

-- Only the second server answers. The world counts the queries.
unfoldable exchange : Client → Msg → Str → ℕ → Exchanged × ℕ × ℕ
exchange client m s w =
    if str_eq s (codes "b:53")
    then ((some (record m { rcode = 0 }), false), 0, w + 1)
    else ((none, true), 0, w + 1)

abbrev question : Question
question = record { name = codes "x.y."; qtype = 1; qclass = 1 }

abbrev req : Msg
req = record empty_msg { id = 9; question = question ∷ [] }

never_nil : NeverNil exchange
unfolding exchange
never_nil client r server w e = elim (Bool-cases (str_eq server (codes "b:53"))) [
  | inl h ↦ cc
  | inr h ↦ cc
]

alone : IsAlone exchange
unfolding exchange
alone client r server w = elim (Bool-cases (str_eq server (codes "b:53"))) [
  | inl h ↦ rw h
  | inr h ↦ rw h
]

b_IsHealthy : IsHealthy exchange (codes "b:53")
unfolding exchange str_eq
b_IsHealthy client m w = (record m { rcode = 0 }, refl, inl refl)

plain : expand_query config (codes "x.y.") ≡ codes "x.y." ∷ []
unfolding expand_query count
plain = refl

handle_dns-healthy_example :
    (m : Msg) × (p' : Option Proxy) × (w' : ℕ) × (handle_dns exchange (some proxy) false req 0
      ≡ done (some m, p', w'))
    × ((m.rcode ≡ rcode_success) ⊎ (m.rcode ≡ rcode_name_error))
handle_dns-healthy_example =
    handle_dns-healthy exchange never_nil alone (codes "b:53") (codes "x.y.") 1 [] proxy false
      question [] req 0 b_IsHealthy (record { in_range = omega arith }) (omega arith) refl refl
      plain

counts : Counts exchange (λ w. w)
unfolding exchange
counts client r server w = elim (Bool-cases (str_eq server (codes "b:53"))) [
  | inl h ↦ rw h (omega arith)
  | inr h ↦ rw h (omega arith)
]

handle_dns-retries_example :
    (resp : Option Msg) × (p' : Proxy) × (w' : ℕ) × (handle_dns exchange (some proxy) false req 0
      ≡ done (resp, some p', w'))
    × Concluded exchange (λ w. w) 0 (length (expand_query config question.name) * 2) resp w'
handle_dns-retries_example =
    handle_dns-retries exchange (λ w. w) never_nil counts proxy false question [] req 0
      (record { in_range = omega arith }) refl

draw_lem_example :
    (s : Str) × (get_elem? proxy.rotate.servers ((0 + 5) % 2) ≡ some s)
    × (draw 5 proxy.rotate ≡ done s)
draw_lem_example = draw_lem 5 proxy.rotate (record { in_range = omega arith })

abbrev resolv_conf : ClientConfig
resolv_conf = record {
  servers = codes "127.0.0.1" ∷ codes "8.8.8.8" ∷ [];
  search = codes "local" ∷ [];
  ndots = 0;
  timeout = pos 5;
  attempts = pos 2;
}

init_recurse_config_lem_example :
    (c : Config) × (init_recurse_config true (some resolv_conf) true (pos 1) (codes "8.8.8.8" ∷ [])
      ≡ some (some c))
    × Distinct c.upstream
    × ((k : Str)
        → member (k ++ port_suffix) c.upstream ≡ (
            (member k (codes "8.8.8.8" ∷ []) || member k resolv_conf.servers)
            && not (str_eq k local_ip && true)))
    × (pos (length c.upstream) ≤ℤ c.attempts)
    × (pos 2 ≤ℤ c.attempts)
    × (pos 1 ≤ℤ c.timeout)
    × (1 ≤ c.ndots)
init_recurse_config_lem_example =
    init_recurse_config_lem true resolv_conf (pos 1) (codes "8.8.8.8" ∷ [])
