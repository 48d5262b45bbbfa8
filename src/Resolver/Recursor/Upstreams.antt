-- ===== src/Resolver/Recursor/Upstreams.antt =====
-- The list of upstream servers that internal/resolver/recursor/base.go builds.
use polaris_sidecar.Prelude.{
  Bool, Bool-cases, List, [], ap, arith, false, inl, inr, length, not, refl, some, sym, true, ◌&&◌,
  ◌++◌, ◌||◌, ◌∙◌, ◌∷◌, ◌≡◌, ◌≤◌,
}
use polaris_sidecar.Prelude.Int.{pos, ℤ, ◌≤ℤ◌}
use polaris_sidecar.Prelude.Sets.{
  Distinct, Distinct-append, add, member, member-add, member-append, member_subst,
}
use polaris_sidecar.Prelude.Text.{Str, cut_end, cut_end-append, str_eq, str_eq_iff}
use polaris_sidecar.Resolver.Recursor.{
  ClientConfig, Config, fill_by_resolv_config, get_bigger, init_recurse_config, local_ip,
  merge_upstream, need_skip, port_suffix,
}

str_eq-append_right : (k j p : Str) → str_eq (k ++ p) (j ++ p) ≡ str_eq k j
str_eq-append_right k j p = elim (Bool-cases (str_eq k j)) [
  | inl e ↦ (str_eq_iff (k ++ p) (j ++ p)).1 (ap (λ t. t ++ p) ((str_eq_iff k j).0 e)) ∙ sym e
  | inr e ↦ elim (Bool-cases (str_eq (k ++ p) (j ++ p))) [
    | inr f ↦ f ∙ sym e
    | inl f ↦
        let same =
          sym (cut_end-append k p)
          ∙ ap (λ t. cut_end t p) ((str_eq_iff (k ++ p) (j ++ p)).0 f)
          ∙ cut_end-append j p in
        absurd (ground (arith, str_eq_iff k j, same))
  ]
]

-- The list holds each server seen, with the port, and nothing twice.
record IsMerged (state : List Str × List Str) : Type 0 where
  pub distinct : Distinct state.0
  pub seen : (k : Str) → member (k ++ port_suffix) state.0 ≡ member k state.1

append_server-IsMerged :
    (n : Str) (upstream seen : List Str)
    → member n seen ≡ false
    → IsMerged (upstream, seen)
    → IsMerged (upstream ++ (n ++ port_suffix) ∷ [], add n seen)
append_server-IsMerged n upstream seen h v = record {
  distinct = Distinct-append (n ++ port_suffix) upstream v.distinct (v.seen n ∙ h);
  seen = λ k.
      unfold member in
      ground (
        arith,
        member-append (k ++ port_suffix) upstream ((n ++ port_suffix) ∷ []),
        member-add n k seen,
        v.seen k,
        str_eq-append_right n k port_suffix,
      );
}

get_bigger_bounds : (a b : ℤ) → (a ≤ℤ get_bigger a b) × (b ≤ℤ get_bigger a b)
unfolding get_bigger
get_bigger_bounds a b = ground arith

module _ (bind_localhost : Bool) where
  skip_lem : (k : Str) → need_skip bind_localhost k ≡ (str_eq k local_ip && bind_localhost)
  unfolding need_skip
  skip_lem k = ground arith

  merge_upstream-IsMerged :
      (ns upstream seen : List Str)
      → IsMerged (upstream, seen)
      → IsMerged (merge_upstream bind_localhost ns (upstream, seen))
  unfolding merge_upstream
  merge_upstream-IsMerged [] upstream seen v = v
  merge_upstream-IsMerged (n ∷ ns) upstream seen v = elim (Bool-cases (member n seen)) [
    | inl e ↦ rw (e, not) (merge_upstream-IsMerged ns upstream seen v)
    | inr e ↦ elim (Bool-cases (need_skip bind_localhost n)) [
      | inl f ↦ rw (e, f, not) (merge_upstream-IsMerged ns upstream seen v)
      | inr f ↦
          rw (e, f, not)
            (merge_upstream-IsMerged ns _ _ (append_server-IsMerged n upstream seen e v))
    ]
  ]

  skip_subst :
      (n k : Str) → str_eq n k ≡ true → need_skip bind_localhost n ≡ need_skip bind_localhost k
  skip_subst n k h = ap (need_skip bind_localhost) ((str_eq_iff n k).0 h)

  -- One round of the loop, for a server that is dropped and for one that is taken.
  merge_dropped :
      (n : Str) (ns upstream seen : List Str)
      → (member n seen || need_skip bind_localhost n) ≡ true
      → merge_upstream bind_localhost (n ∷ ns) (upstream, seen)
        ≡ merge_upstream bind_localhost ns (upstream, seen)
  unfolding merge_upstream
  merge_dropped n ns upstream seen h = ground arith

  merge_taken :
      (n : Str) (ns upstream seen : List Str)
      → member n seen ≡ false
      → need_skip bind_localhost n ≡ false
      → merge_upstream bind_localhost (n ∷ ns) (upstream, seen)
        ≡ merge_upstream bind_localhost ns (upstream ++ (n ++ port_suffix) ∷ [], add n seen)
  unfolding merge_upstream
  merge_taken n ns upstream seen h k = rw (h, k, not)

  merge_upstream-seen :
      (ns upstream seen : List Str) (k : Str)
      → member k (merge_upstream bind_localhost ns (upstream, seen)).1
        ≡ (member k seen || (member k ns && not (need_skip bind_localhost k)))
  merge_upstream-seen [] upstream seen k = unfold merge_upstream member in ground arith
  merge_upstream-seen (n ∷ ns) upstream seen k =
      let at = λ (r : List Str × List Str). member k r.1 in
      elim (Bool-cases (member n seen || need_skip bind_localhost n)) [
        | inl e ↦
            ap at (merge_dropped n ns upstream seen e)
            ∙ merge_upstream-seen ns upstream seen k
            ∙ unfold member in ground (arith, member_subst n k seen, skip_subst n k)
        | inr e ↦
            ap at (merge_taken n ns upstream seen (ground arith) (ground arith))
            ∙ merge_upstream-seen ns (upstream ++ (n ++ port_suffix) ∷ []) (add n seen) k
            ∙ unfold member in ground (arith, member-add n k seen, skip_subst n k)
      ]

  -- From an empty list, two lists of servers one after the other.
  abbrev merged : List Str → List Str → List Str × List Str
  merged first second =
      merge_upstream bind_localhost second (merge_upstream bind_localhost first ([], []))

  merged-IsMerged : (first second : List Str) → IsMerged (merged first second)
  merged-IsMerged first second =
      let (upstream, seen) = merge_upstream bind_localhost first ([], []) in
      merge_upstream-IsMerged second upstream seen (
        merge_upstream-IsMerged first [] []
          (record { distinct = tt; seen = λ k. unfold member in refl }))

  merged-seen :
      (first second : List Str) (k : Str)
      → member k (merged first second).1
        ≡ ((member k first || member k second) && not (need_skip bind_localhost k))
  merged-seen first second k =
      let (upstream, seen) = merge_upstream bind_localhost first ([], []) in
      unfold member in
      ground (arith, merge_upstream-seen second upstream seen k, merge_upstream-seen first [] [] k)

  -- The configuration made of a readable /etc/resolv.conf forwards to the configured servers and
  -- to those of that file, each once and with the port 53, but never to 127.0.0.1 if the sidecar
  -- itself binds there. It makes as many attempts as there are servers, or more, and as many as
  -- the file asks for.
  pub init_recurse_config_lem :
      (d : ClientConfig) (timeout : ℤ) (name_servers : List Str)
      → (c : Config) × (init_recurse_config true (some d) bind_localhost timeout name_servers
          ≡ some (some c))
        × Distinct c.upstream
        × ((k : Str)
            → member (k ++ port_suffix) c.upstream ≡ (
                (member k name_servers || member k d.servers)
                && not (str_eq k local_ip && bind_localhost)))
        × (pos (length c.upstream) ≤ℤ c.attempts)
        × (d.attempts ≤ℤ c.attempts)
        × (timeout ≤ℤ c.timeout)
        × (1 ≤ c.ndots)
  unfolding init_recurse_config fill_by_resolv_config need_skip
  init_recurse_config_lem d timeout name_servers = (
    fill_by_resolv_config
        (record {
          ndots = 0;
          search = [];
          timeout = get_bigger timeout d.timeout;
          attempts = pos 0;
          upstream = (merged name_servers d.servers).0;
        })
        d,
    refl,
    (merged-IsMerged name_servers d.servers).distinct,
    (λ k.
        (merged-IsMerged name_servers d.servers).seen k
        ∙ merged-seen name_servers d.servers k
        ∙ ap (λ b. (member k name_servers || member k d.servers) && not b) (skip_lem k)),
    (get_bigger_bounds d.attempts (pos (length (merged name_servers d.servers).0))).1,
    (get_bigger_bounds d.attempts (pos (length (merged name_servers d.servers).0))).0,
    (get_bigger_bounds timeout d.timeout).0,
    ground arith,
  )
