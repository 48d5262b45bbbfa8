-- ===== src/Mesh/CaClient.antt =====
-- The signing of certificates: internal/mesh/mtls/certificate/caclient/client.go and
-- internal/mesh/mtls/certificate/manager/manager.go.
use polaris_sidecar.Prelude.{
  Bool, Option, Option-cases, [], ap, false, if◌then◌else◌, inl, inr, is_empty, none, not, refl,
  some, sym, true, ℕ, ◌&&◌, ◌==◌, ◌∙◌, ◌≡◌, ◌⊎◌,
}
use polaris_sidecar.Prelude.Text.{Str, codes, str_eq, to_lower}

pub record CreateCertificateResponse : Type 0 where
  pub cert_chain : Str
  pub root_cert : Str
  pub message : Str

-- A response of the server: what its body decodes to, if it does, and whether its body closes
-- without an error.
pub record HttpResponse : Type 0 where
  pub status_code : ℕ
  pub decoded : Option CreateCertificateResponse
  pub close_ok : Bool

pub data SignError : Type 0 where
  bad_scheme bad_endpoint request_failed exchange_failed decode_failed close_failed : SignError
  refused : Str → SignError

-- The results of CreateCertificate: the chain, the root and the error.
abbrev pub Signed : Type 0
Signed = Str × Str × Option SignError

unfoldable pub read_response : HttpResponse → Signed
read_response resp = elim resp.decoded [
  | none ↦ ([], [], some decode_failed)
  | some ccr ↦
      if not (resp.status_code == 200)
      then ([], [], some (refused ccr.message))
      else (ccr.cert_chain, ccr.root_cert, none)
]

-- The deferred function assigns what `Close` returns to the error that is returned.
unfoldable pub close_body : Bool → Signed → Signed
close_body true (chain, root, e) = (chain, root, none)
close_body false (chain, root, e) = (chain, root, some close_failed)

-- `new_request` tells whether the request can be made, and `resp` is what `Do` gives.
unfoldable pub create_certificate : Bool → Option HttpResponse → Signed
unfolding read_response close_body
create_certificate false resp = ([], [], some request_failed)
create_certificate true none = ([], [], some exchange_failed)
create_certificate true (some resp) = close_body resp.close_ok (read_response resp)

pub record CaClient : Type 0 where
  pub token : Str
  pub endpoint : Str

-- `New`: `scheme` is that of the endpoint, if `url.Parse` reads it, and `sat` the token of the
-- service account.
unfoldable pub new_client : (Str → Option Str) → Str → Str → Str → CaClient ⊎ SignError
new_client scheme sat endpoint token = elim (scheme endpoint) [
  | none ↦ inr bad_endpoint
  | some sc ↦
      if not (str_eq (to_lower sc) (codes "http")) && not (str_eq (to_lower sc) (codes "https"))
      then inr bad_scheme
      else inl (record { token = if is_empty token then sat else token; endpoint = endpoint })
]

pub record Bundle : Type 0 where
  pub root_ca : Str
  pub cert_chain : Str
  pub priv_key : Str

-- `GetBundle`: a key that is generated stands for its encoded form, `csr` tells whether the
-- request can be made, and `signed` is what CreateCertificate returns.
unfoldable pub get_bundle : Option Str → Bool → Signed → Option Bundle
get_bundle none csr signed = none
get_bundle (some key) false signed = none
get_bundle (some key) true (chain, root, some e) = none
get_bundle (some key) true (chain, root, none) =
    some (record { root_ca = root; cert_chain = chain; priv_key = key })

-- A response says that a certificate was signed.
abbrev pub is_signed : HttpResponse → Bool
is_signed resp = elim resp.decoded [ none ↦ false | some ccr ↦ resp.status_code == 200 ]

is_signed-some :
    (resp : HttpResponse) (ccr : CreateCertificateResponse)
    → resp.decoded ≡ some ccr
    → is_signed resp ≡ (resp.status_code == 200)
is_signed-some resp ccr e = rw e

read_unsigned :
    (resp : HttpResponse)
    → is_signed resp ≡ false
    → ((read_response resp).0 ≡ []) × ((read_response resp).1 ≡ [])
unfolding read_response
read_unsigned resp u = elim (Option-cases resp.decoded) [
  | inl e ↦ rw (e, read_response) (refl, refl)
  | inr (ccr, e) ↦ rw (e, read_response, sym (is_signed-some resp ccr e) ∙ u) (refl, refl)
]

read_signed :
    (resp : HttpResponse) (ccr : CreateCertificateResponse)
    → resp.decoded ≡ some ccr
    → resp.status_code ≡ 200
    → ((read_response resp).0 ≡ ccr.cert_chain) × ((read_response resp).1 ≡ ccr.root_cert)
unfolding read_response
read_signed resp ccr e s = rw (e, read_response, s) (refl, refl)

close_body_lem :
    (ok : Bool) (s : Signed)
    → ((close_body ok s).2 ≡ (if ok then none else some close_failed))
      × ((close_body ok s).0 ≡ s.0)
      × ((close_body ok s).1 ≡ s.1)
unfolding close_body
close_body_lem true s = (refl, refl, refl)
close_body_lem false s = (refl, refl, refl)

-- Once the server responds, the error is that of closing the body and no other, and the chain and
-- the root are those of the response if it says that a certificate was signed, and empty
-- otherwise.
pub create_certificate_lem :
    (resp : HttpResponse)
    → ((create_certificate true (some resp)).2
        ≡ (if resp.close_ok then none else some close_failed))
      × (is_signed resp ≡ false
          → ((create_certificate true (some resp)).0 ≡ [])
            × ((create_certificate true (some resp)).1 ≡ []))
      × ((ccr : CreateCertificateResponse)
          → resp.decoded ≡ some ccr
          → resp.status_code ≡ 200
          → ((create_certificate true (some resp)).0 ≡ ccr.cert_chain)
            × ((create_certificate true (some resp)).1 ≡ ccr.root_cert))
unfolding create_certificate
create_certificate_lem resp =
    let (error, chain, root) = close_body_lem resp.close_ok (read_response resp) in
    (
      error,
      (λ u. let (a, b) = read_unsigned resp u in (chain ∙ a, root ∙ b)),
      λ ccr e s. let (a, b) = read_signed resp ccr e s in (chain ∙ a, root ∙ b),
    )

get_bundle-some :
    (key : Str) (s : Signed)
    → s.2 ≡ none
    → get_bundle (some key) true s
      ≡ some (record { root_ca = s.1; cert_chain = s.0; priv_key = key })
unfolding get_bundle
get_bundle-some key (chain, root, none) e = refl
get_bundle-some key (chain, root, some e') e = cc

abbrev bundle : Str → Str → Str → Option Bundle
bundle root chain key = some (record { root_ca = root; cert_chain = chain; priv_key = key })

-- A response that signs nothing still gives a bundle, with no certificates, if its body closes: the
-- failure is lost.
pub get_bundle-unsigned :
    (resp : HttpResponse) (key : Str)
    → is_signed resp ≡ false
    → resp.close_ok ≡ true
    → get_bundle (some key) true (create_certificate true (some resp))
      ≡ some (record { root_ca = []; cert_chain = []; priv_key = key })
get_bundle-unsigned resp key u c =
    let (error, unsigned, signed) = create_certificate_lem resp in
    let (chain, root) = unsigned u in
    get_bundle-some key (create_certificate true (some resp))
      (error ∙ ap (λ b. if b then none else some close_failed) c)
    ∙ ap (λ t. bundle t (create_certificate true (some resp)).0 key) root
    ∙ ap (λ t. bundle [] t key) chain
