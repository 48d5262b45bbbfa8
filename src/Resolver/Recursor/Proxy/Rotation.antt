-- ===== src/Resolver/Recursor/Proxy/Rotation.antt =====
-- The rotation of the upstream servers in internal/resolver/recursor/proxy.go. The mutex makes
-- each `Next` one step, so the queries of all clients draw from one sequence.
use native.Mathlib.Decide.{dec_le}
use native.Mathlib.Nat.{add-mod_right, add-zero, mod-add-mod, mod-eq_of_lt, mod-lt}
use polaris_sidecar.Prelude.{
  Outcome, ap, arith, done, get_elem?, get_elem?-lt, length, or_panic, some, suc, sym, zero, ℕ, ◌%◌,
  ◌+◌, ◌-◌, ◌<◌, ◌>>=◌, ◌∙◌, ◌≡◌,
}
use polaris_sidecar.Prelude.Text.{Str}
use polaris_sidecar.Resolver.Recursor.Proxy.{RotatingUpstream, drawn, next}

pub record IsReady (r : RotatingUpstream) : Type 0 where
  pub in_range : r.index < length r.servers

-- The rotation after one draw.
abbrev pub advance : RotatingUpstream → RotatingUpstream
advance r = record r { index = (r.index + 1) % length r.servers }

pub advance-IsReady : (r : RotatingUpstream) → IsReady r → IsReady (advance r)
advance-IsReady r v = record { in_range = mod-lt (r.index + 1) (omega arith) }

-- A draw gives the server at the index, if the rotation has servers.
pub next-IsReady :
    (r : RotatingUpstream)
    → IsReady r
    → (s : Str) × (get_elem? r.servers r.index ≡ some s) × (next r ≡ done (s, advance r))
unfolding next
next-IsReady r v =
    let (s, e) = get_elem?-lt r.servers r.index v.in_range in (s, e, rw (e, or_panic))

-- The draws of other queries keep the rotation in range.
pub drawn-IsReady : (k : ℕ) (r : RotatingUpstream) → IsReady r → IsReady (drawn k r)
unfolding drawn
drawn-IsReady zero r v = v
drawn-IsReady (suc k) r v =
    let (s, e, d) = next-IsReady r v in
    rw (d, drawn) (drawn-IsReady k (advance r) (advance-IsReady r v))

-- The draw that comes after so many others.
unfoldable pub draw : ℕ → RotatingUpstream → Outcome Str
draw zero r = do (s, r') ← next r; done s
draw (suc k) r = do (s, r') ← next r; draw k r'

pub shift_index : (i k n : ℕ) → ((i + 1) % n + k) % n ≡ (i + suc k) % n
shift_index i k n = mod-add-mod (i + 1) n k ∙ ap (λ t. t % n) (omega arith)

pub start_index : (i n : ℕ) → i < n → (i + 0) % n ≡ i
start_index i n h = ap (λ t. t % n) (add-zero i) ∙ mod-eq_of_lt h

-- The servers are drawn round and round in their order: the k-th draw from index `i` of `n`
-- servers gives the server `(i + k) mod n`, and no draw panics.
pub draw_lem :
    (k : ℕ) (r : RotatingUpstream)
    → IsReady r
    → (s : Str) × (get_elem? r.servers ((r.index + k) % length r.servers) ≡ some s)
      × (draw k r ≡ done s)
unfolding draw
draw_lem zero r v =
    let (s, e, d) = next-IsReady r v in
    (s, ap (get_elem? r.servers) (start_index r.index (length r.servers) v.in_range) ∙ e, rw d)
draw_lem (suc k) r v =
    let (s, e, d) = next-IsReady r v in
    let (t, f, g) = draw_lem k (advance r) (advance-IsReady r v) in
    (t, ap (get_elem? r.servers) (sym (shift_index r.index k (length r.servers))) ∙ f, rw d g)

-- The place of a server, counted from where the rotation stands.
pub distance : (i j n : ℕ) → i < n → j < n → (t : ℕ) × (t < n) × ((i + t) % n ≡ j)
distance i j n hi hj = elim (dec_le i j) [
  | yes h ↦ (j - i, omega arith, ap (λ k. k % n) (omega arith) ∙ mod-eq_of_lt hj)
  | no h ↦
      (j + n - i, omega arith, ap (λ k. k % n) (omega arith) ∙ add-mod_right j n ∙ mod-eq_of_lt hj)
]
