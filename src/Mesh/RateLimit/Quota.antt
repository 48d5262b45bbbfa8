-- ===== src/Mesh/RateLimit/Quota.antt =====
-- The requests and answers of the rate limit service of internal/mesh/rls/server.go.
use polaris_sidecar.Mesh.RateLimit.{
  Descriptor, Entry, QuotaRequest, add_descriptors, add_entries, build_quota_request, path_key,
  trim_domain,
}
use polaris_sidecar.Prelude.{
  Bool-cases, List, [], ap, append-nil, append_assoc, arith, false, if◌then◌else◌, inl, inr,
  is_empty, none, refl, some, subst, sym, true, ℕ, ◌++◌, ◌∙◌, ◌∷◌, ◌≡◌, ◌≢◌, ◌⊎◌,
}
use polaris_sidecar.Prelude.Text.{Str, has_suffix, has_suffix-append, has_suffix_split, str_eq}

-- All entries of the descriptors, in order.
unfoldable pub all_entries : List Descriptor → List Entry
all_entries [] = []
all_entries (none ∷ ds) = all_entries ds
all_entries (some es ∷ ds) = es ++ all_entries ds

-- The value of the last path among entries, or else another.
unfoldable pub last_path : List Entry → Str → Str
last_path [] old = old
last_path (e ∷ es) old = if str_eq e.key path_key then last_path es e.value else last_path es old

module _ {A : Type 0} (new_quota_request : QuotaRequest A) (build_argument : Str → Str → A) where
  -- The arguments made of the entries that are no path.
  unfoldable pub arguments_of : List Entry → List A
  arguments_of [] = []
  arguments_of (e ∷ es) =
      if str_eq e.key path_key
      then arguments_of es
      else build_argument e.key e.value ∷ arguments_of es

  -- The loop over the entries sets the path and adds the other entries.
  record Added (es : List Entry) (req r : QuotaRequest A) : Type 0 where
    arguments : r.arguments ≡ req.arguments ++ arguments_of es
    method : r.method ≡ last_path es req.method

  add_path :
      (e : Entry) (es : List Entry) (req : QuotaRequest A)
      → str_eq e.key path_key ≡ true
      → add_entries new_quota_request build_argument (e ∷ es) req
        ≡ add_entries new_quota_request build_argument es (record req { method = e.value })
  unfolding add_entries
  add_path e es req h = rw h

  add_other :
      (e : Entry) (es : List Entry) (req : QuotaRequest A)
      → str_eq e.key path_key ≡ false
      → add_entries new_quota_request build_argument (e ∷ es) req
        ≡ add_entries new_quota_request build_argument es
            (record req { arguments = req.arguments ++ build_argument e.key e.value ∷ [] })
  unfolding add_entries
  add_other e es req h = rw h

  arguments-path :
      (e : Entry) (es : List Entry)
      → str_eq e.key path_key ≡ true
      → arguments_of (e ∷ es) ≡ arguments_of es
  unfolding arguments_of
  arguments-path e es h = rw h

  arguments-other :
      (e : Entry) (es : List Entry)
      → str_eq e.key path_key ≡ false
      → arguments_of (e ∷ es) ≡ build_argument e.key e.value ∷ arguments_of es
  unfolding arguments_of
  arguments-other e es h = rw h

  last_path_cons :
      (e : Entry) (es : List Entry) (old : Str)
      → last_path (e ∷ es) old
        ≡ (if str_eq e.key path_key then last_path es e.value else last_path es old)
  unfolding last_path
  last_path_cons e es old = refl

  add_entries-Added :
      (es : List Entry) (req : QuotaRequest A)
      → Added es req (add_entries new_quota_request build_argument es req)
  unfolding add_entries arguments_of last_path
  add_entries-Added [] req = record { arguments = sym (append-nil req.arguments); method = refl }
  add_entries-Added (e ∷ es) req = elim (Bool-cases (str_eq e.key path_key)) [
    | inl h ↦
        let rest = add_entries-Added es (record req { method = e.value }) in
        subst (Added (e ∷ es) req) (sym (add_path e es req h)) (record {
          arguments = rest.arguments ∙ ap (λ t. req.arguments ++ t) (sym (arguments-path e es h));
          method = rest.method ∙ sym (last_path_cons e es req.method ∙ rw h);
        })
    | inr h ↦
        let req' = record req { arguments = req.arguments ++ build_argument e.key e.value ∷ [] } in
        let rest = add_entries-Added es req' in
        subst (Added (e ∷ es) req) (sym (add_other e es req h)) (record {
          arguments =
              rest.arguments
              ∙ append_assoc req.arguments (build_argument e.key e.value ∷ []) (arguments_of es)
              ∙ ap (λ t. req.arguments ++ t) (sym (arguments-other e es h));
          method = rest.method ∙ sym (last_path_cons e es req.method ∙ rw h);
        })
  ]

  arguments-append :
      (es fs : List Entry) → arguments_of (es ++ fs) ≡ arguments_of es ++ arguments_of fs
  unfolding arguments_of
  arguments-append [] fs = refl
  arguments-append (e ∷ es) fs = ground (arith, arguments-append es fs)

  last_path-append :
      (es fs : List Entry) (old : Str) → last_path (es ++ fs) old ≡ last_path fs (last_path es old)
  unfolding last_path
  last_path-append [] fs old = refl
  last_path-append (e ∷ es) fs old =
      ground (arith, last_path-append es fs old, last_path-append es fs e.value)

  add_descriptors-Added :
      (ds : List Descriptor) (req : QuotaRequest A)
      → Added (all_entries ds) req (add_descriptors new_quota_request build_argument ds req)
  unfolding add_descriptors all_entries arguments_of last_path
  add_descriptors-Added [] req = record {
    arguments = sym (append-nil req.arguments);
    method = refl;
  }
  add_descriptors-Added (none ∷ ds) req = add_descriptors-Added ds req
  add_descriptors-Added (some es ∷ ds) req =
      let first = add_entries-Added es req in
      let rest = add_descriptors-Added ds (add_entries new_quota_request build_argument es req) in
      record {
        arguments =
            rest.arguments
            ∙ ap (λ t. t ++ arguments_of (all_entries ds)) first.arguments
            ∙ append_assoc req.arguments (arguments_of es) (arguments_of (all_entries ds))
            ∙ ap (λ t. req.arguments ++ t) (sym (arguments-append es (all_entries ds)));
        method =
            rest.method
            ∙ ap (last_path (all_entries ds)) first.method
            ∙ sym (last_path-append es (all_entries ds) req.method);
      }

  -- A domain that ends in the namespace names the service before it, any other names itself.
  abbrev pub Names : Str → Str → Str → Type 0
  Names namespace domain service =
      (service ++ b'.' ∷ namespace ≡ domain)
      ⊎ (((p : Str) → p ++ b'.' ∷ namespace ≢ domain) × (service ≡ domain))

  trim_domain_lem :
      (domain namespace : Str)
      → Names namespace domain (trim_domain new_quota_request build_argument domain namespace)
  unfolding trim_domain
  trim_domain_lem domain namespace = elim (Bool-cases (has_suffix domain (b'.' ∷ namespace))) [
    | inl h ↦ inl (rw h (has_suffix_split domain (b'.' ∷ namespace) h))
    | inr h ↦ inr (
      (λ p e.
          cc (
            h,
            ap (λ d. has_suffix d (b'.' ∷ namespace)) e,
            has_suffix-append p (b'.' ∷ namespace),
          )),
      rw h,
    )
  ]

  build_quota_request-set :
      (namespace domain : Str) (acquire_quota : ℕ) (ds : List Descriptor)
      → is_empty domain ≡ false
      → is_empty namespace ≡ false
      → build_quota_request new_quota_request build_argument namespace domain acquire_quota ds
        ≡ record (add_descriptors new_quota_request build_argument ds new_quota_request) {
          namespace = namespace;
          service = trim_domain new_quota_request build_argument domain namespace;
          token = acquire_quota;
        }
  unfolding build_quota_request
  build_quota_request-set namespace domain acquire_quota ds d n = rw (d, n)

  -- What a quota request asks for.
  pub record Asks (namespace domain : Str) (acquire_quota : ℕ) (ds : List Descriptor)
      (q : QuotaRequest A) : Type 0 where
    pub namespace_set : q.namespace ≡ namespace
    pub service_set : Names namespace domain q.service
    pub token_set : q.token ≡ acquire_quota
    pub method_set : q.method ≡ last_path (all_entries ds) new_quota_request.method
    pub arguments_set : q.arguments ≡ new_quota_request.arguments ++ arguments_of (all_entries ds)

  -- For a domain and a namespace that are not empty, quota is asked for the service that stands
  -- before a dot and the namespace at the end of the domain, or for the whole domain if it does not
  -- end in them, for the last path among the entries of all descriptors, and with one argument for
  -- each other entry, in order.
  pub build_quota_request-Asks :
      (namespace domain : Str) (acquire_quota : ℕ) (ds : List Descriptor)
      → is_empty domain ≡ false
      → is_empty namespace ≡ false
      → Asks namespace domain acquire_quota ds
          (build_quota_request new_quota_request build_argument namespace domain acquire_quota ds)
  build_quota_request-Asks namespace domain acquire_quota ds d n =
      let added = add_descriptors-Added ds new_quota_request in
      subst (Asks namespace domain acquire_quota ds)
        (sym (build_quota_request-set namespace domain acquire_quota ds d n))
        (record {
          namespace_set = refl;
          service_set = trim_domain_lem domain namespace;
          token_set = refl;
          method_set = added.method;
          arguments_set = added.arguments;
        })
