-- ===== src/Resolver/Recursor/Proxy.antt =====
-- internal/resolver/recursor/proxy.go: a query is forwarded to the upstream servers in turn.
pub mod Rotation
pub mod Retry
pub mod Reach
pub mod Total
pub mod Attempts
use polaris_sidecar.Bootstrap.{shared}
use polaris_sidecar.Prelude.{
  Bool, List, Option, Outcome, [], done, false, get_elem?, if◌then◌else◌, length, ltb, none, not,
  or_panic, panic, some, suc, zero, ℕ, ◌%◌, ◌++◌, ◌+◌, ◌==◌, ◌>>=◌, ◌||◌, ◌∷◌,
}
use polaris_sidecar.Prelude.Int.{pos_part, ℤ}
use polaris_sidecar.Prelude.Text.{Str, count}
use polaris_sidecar.Qname.{add_quota}
use polaris_sidecar.Resolver.Dns.{Msg, Question, rcode_name_error, rcode_success, tcp, udp}
use polaris_sidecar.Resolver.Recursor.{Config}

pub record RotatingUpstream : Type 0 where
  pub servers : List Str
  pub index : ℕ

-- `recursor.Proxy`: its rotation is the state that the queries share.
pub record Proxy : Type 0 where
  pub config : Config
  pub rotate : RotatingUpstream

unfoldable pub build_proxy : Option Config → Option Proxy
build_proxy none = none
build_proxy (some r) =
    some (record { config = r; rotate = record { servers = r.upstream; index = 0 } })

unfoldable pub next : RotatingUpstream → Outcome (Str × RotatingUpstream)
next r = do
  server ← or_panic (get_elem? r.servers r.index)
  done (server, record r { index = (r.index + 1) % length r.servers })

-- The draws of other queries. One that panics leaves the rotation as it is.
unfoldable pub drawn : ℕ → RotatingUpstream → RotatingUpstream
unfolding next
drawn zero r = r
drawn (suc k) r = elim (next r) [ panic ↦ drawn k r | done (s, r') ↦ drawn k r' ]

-- The names to ask for.
unfoldable pub add_search : Str → List Str → List Str
add_search name [] = []
add_search name (suffix ∷ search) = add_quota (name ++ suffix) ∷ add_search name search

unfoldable pub expand_query : Config → Str → List Str
unfolding add_search
expand_query config name =
    if ltb (count b'.' name) config.ndots then add_search name config.search else name ∷ []

-- `dns.Client`
pub record Client : Type 0 where
  pub net : Str
  pub timeout : ℤ

-- What `Exchange` returns: a reply or nil, and whether there is an error.
abbrev pub Exchanged : Type 0
Exchanged = Option Msg × Bool

is_answer : Msg → Bool
is_answer m = m.rcode == rcode_success || m.rcode == rcode_name_error

-- The cases of the `switch` that return.
unfoldable pub accepts : Exchanged → Bool
unfolding is_answer
accepts (none, failed) = not failed
accepts (some m, failed) = if not (is_answer m) then false else not failed || m.truncated

-- `req.Question[0].Name = domain`
unfoldable pub set_question_name : Msg → Str → Outcome Msg
set_question_name r domain = elim r.question [
  | [] ↦ panic
  | q ∷ qs ↦ done (record r { question = record q { name = domain } ∷ qs })
]

-- The world is what the network and the servers are in; `exchange` is `dns.Client.Exchange`. The
-- number that it gives counts the draws of other queries until this one goes on: all queries share
-- the rotation, and each draw is one step under its mutex.
module _ {W : Type 0} (exchange : Client → Msg → Str → W → Exchanged × ℕ × W) where
  -- Up to so many attempts at one name. The result is `none` if every attempt is to be retried.
  unfoldable pub try_attempts :
      ℕ → Client → Msg → RotatingUpstream → W → Outcome (Option (Option Msg) × RotatingUpstream × W)
  unfolding drawn
  try_attempts zero client req rotate w = done (none, rotate, w)
  try_attempts (suc k) client req rotate w = do
    (upstream, rotate') ← next rotate
    let (result, others, w') = exchange client req upstream w
    let shared = drawn others rotate'
    let more = try_attempts k client req shared w'
    if accepts result then done (some result.0, shared, w') else more

  unfoldable pub try_domains :
      List Str
      → ℕ
      → Client
      → Msg
      → RotatingUpstream
      → W
      → Outcome (Option Msg × RotatingUpstream × W)
  try_domains [] attempts client r rotate w = done (none, rotate, w)
  try_domains (domain ∷ domains) attempts client r rotate w = do
    req ← set_question_name r domain
    (found, rotate', w') ← try_attempts attempts client req rotate w
    let more = try_domains domains attempts client r rotate' w'
    elim found [ some resp ↦ done (resp, rotate', w') | none ↦ more ]

  abbrev with_rotation : Proxy → Option Msg × RotatingUpstream × W → Option Msg × Option Proxy × W
  with_rotation p (resp, rotate, w) = (resp, some (record p { rotate = rotate }), w)

  -- The part of `HandleDNS` behind the test of a nil proxy; `r.Question[0]` is the head of the list.
  unfoldable pub forward :
      List Question → Proxy → Bool → Msg → W → Outcome (Option Msg × Option Proxy × W)
  forward [] p is_tcp r w = panic
  forward (q ∷ qs) p is_tcp r w = do
    let client : Client = record { net = if is_tcp then tcp else udp; timeout = p.config.timeout }
    result ←
        try_domains (expand_query p.config q.name) (pos_part p.config.attempts) client r p.rotate w
    done (with_rotation p result)

  -- `HandleDNS`; `is_tcp` tells whether the client's address is a TCP address.
  unfoldable pub handle_dns :
      Option Proxy → Bool → Msg → W → Outcome (Option Msg × Option Proxy × W)
  unfolding forward
  handle_dns none is_tcp r w = done (none, none, w)
  handle_dns (some p) is_tcp r w = forward r.question p is_tcp r w
