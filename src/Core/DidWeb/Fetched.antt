-- ===== src/Core/DidWeb/Fetched.antt =====
-- trust-policy.ts: the material that createDidWebResolver gives.
use credaryn.Base.{
  ◌∙◌, sym, ap, Option-cases, subst, inr, refl, arith, ok_injective, ◌≤◌, inl, none, true,
  Bool-cases, err, ok, ◌==◌, some_injective, Option, length, some, Result, ◌≡◌, if◌then◌else◌, ◌≢◌,
  ◌∷◌, [],
}
use credaryn.Core.DidWeb.Resolver.{
  hostname_from_url, resolve_did_web_url, fetch_document, create_did_web_resolver, read_document,
  read_response, Platform, DidWebResolverOptions,
}
use credaryn.Core.DidWeb.Resolved.{
  resolves-HasPublicHost, resolve_did_web_url-IsDidUrl, IsDidUrl, HasPublicHost,
}
use credaryn.Core.DidWeb.Bounded.{read_bounded_body_iff, contents}
use credaryn.Core.DidWeb.Document.{
  is_other_id, methods_of, fragment, find_method, extract_public_key, signer_key,
  did_document_signer_key,
}
use credaryn.Base.Options.{>>=-eq-some, if-refused}
use credaryn.Base.Text.{codes, Bytes, Text}
use credaryn.Core.Json.{as_string, get_field, as_record, Fields, Json}
use credaryn.Core.TrustPolicy.{did_web, RemoteTrustMaterial}
use credaryn.Core.Signer.{es256, SignerKeyInfo}
use credaryn.Core.DidWeb.Body.{read_bounded_body, Response}
use credaryn.Core.DidWeb.Private.{resolves_to_public_address}

-- The key is the one that the document at the URL has under the name, in a body within the limit.
abbrev pub IsFetched : Platform → DidWebResolverOptions → Text → Text → RemoteTrustMaterial → Type 0
IsFetched platform options issuer_id key_id remote =
    (fetch : Text → Result (Unit {0}) Response) × (response : Response) × (bytes : Bytes)
    × (document : Json) × (options.fetch_impl ≡ some fetch)
    × (fetch remote.url ≡ ok response)
    × (response.is_ok ≡ true)
    × (contents response.body ≡ some bytes)
    × (length bytes ≤ options.max_bytes)
    × (platform.parse_json bytes ≡ some document)
    × (did_document_signer_key document issuer_id key_id ≡ some remote.key)

-- The key is an ES256 key of the issuer, under the name that was asked for, if one was.
abbrev pub IsNamed : Text → Text → SignerKeyInfo → Type 0
IsNamed issuer_id key_id key =
    (key.issuer_id ≡ issuer_id) × (key.algorithm ≡ es256) × (key_id ≢ [] → key.key_id ≡ key_id)

named :
    (key_id other : Text) → key_id ≢ [] → (if length key_id == 0 then other else key_id) ≡ key_id
named [] other some_name = absurd (some_name refl)
named (c ∷ s) other some_name = elim (Bool-cases (length (c ∷ s) == 0)) [
  | inl empty ↦ absurd (ground arith)
  | inr not_empty ↦ rw not_empty refl
]

signer_key-IsNamed :
    (did key_id : Text) (found : Fields × Text) (key : SignerKeyInfo)
    → signer_key did key_id found ≡ some key
    → IsNamed did key_id key
unfolding signer_key
signer_key-IsNamed did key_id (method, id) key h =
    let (public_key, _, h1) = >>=-eq-some (extract_public_key method) _ h in
    subst (IsNamed did key_id) (some_injective h1) (refl, refl, named key_id (fragment id))

did_document-IsNamed :
    (document : Json) (did key_id : Text) (key : SignerKeyInfo)
    → did_document_signer_key document did key_id ≡ some key
    → IsNamed did key_id key
unfolding did_document_signer_key
did_document-IsNamed document did key_id key h =
    let (fields, _, h1) = >>=-eq-some (as_record (some document)) _ h in
    let (found, _, h2) =
      >>=-eq-some (find_method key_id (methods_of (get_field (codes "verificationMethod") fields)))
        _ h1 in
    let (_, kept) =
      if-refused (is_other_id (as_string (get_field (codes "id") fields)) did)
        (signer_key did key_id found) h2 in
    signer_key-IsNamed did key_id found key kept

module _ (platform : Platform) (options : DidWebResolverOptions) (now issuer_id key_id : Text)
    (remote : RemoteTrustMaterial) where
  abbrev pub IsResolved : Type 0
  IsResolved =
      (remote.source ≡ did_web)
      × IsDidUrl platform options.allowed_domains remote.url
      × HasPublicHost platform options remote.url
      × IsFetched platform options issuer_id key_id remote
      × IsNamed issuer_id key_id remote.key

  -- What stands in the document, at the URL of the material.
  abbrev IsRead : Text → Bytes → Type 0
  IsRead url bytes =
      (document : Json) × (platform.parse_json bytes ≡ some document)
      × (did_document_signer_key document issuer_id key_id ≡ some remote.key)
      × (url ≡ remote.url)
      × (remote.source ≡ did_web)

  read_document-IsRead :
      (url : Text) (bytes : Bytes)
      → read_document platform now url issuer_id key_id (some bytes) ≡ some remote
      → IsRead url bytes
  unfolding read_document
  read_document-IsRead url bytes h =
      let (document, d, h1) = >>=-eq-some (platform.parse_json bytes) _ h in
      let (key, k, h2) = >>=-eq-some (did_document_signer_key document issuer_id key_id) _ h1 in
      subst
        (λ r.
          (document : Json) × (platform.parse_json bytes ≡ some document)
          × (did_document_signer_key document issuer_id key_id ≡ some r.key)
          × (url ≡ r.url)
          × (r.source ≡ did_web))
        (some_injective h2) (document, d, k, refl, refl)

  abbrev IsAnswered : Text → Result (Unit {0}) Response → Type 0
  IsAnswered url answer =
      (response : Response) × (bytes : Bytes) × (answer ≡ ok response)
      × (response.is_ok ≡ true)
      × (read_bounded_body platform.to_number response options.max_bytes ≡ ok (some bytes))
      × IsRead url bytes

  read_body-IsAnswered :
      (url : Text) (response : Response) (body : Result (Unit {0}) (Option Bytes))
      → response.is_ok ≡ true
      → read_bounded_body platform.to_number response options.max_bytes ≡ body
      → elim body as (λ b. Result (Unit {0}) (Option RemoteTrustMaterial)) [
        | err e ↦ err e
        | ok read ↦ ok (read_document platform now url issuer_id key_id read)
      ]
        ≡ ok (some remote)
      → IsAnswered url (ok response)
  unfolding read_document
  read_body-IsAnswered url response (err e) o b h = cc
  read_body-IsAnswered url response (ok none) o b h =
      let bad : none ≡ some remote = ok_injective _ _ h in cc
  read_body-IsAnswered url response (ok (some bytes)) o b h =
      (response, bytes, refl, o, b, read_document-IsRead url bytes (ok_injective _ _ h))

  read_response-IsAnswered :
      (url : Text) (answer : Result (Unit {0}) Response)
      → read_response platform options.max_bytes now url issuer_id key_id answer ≡ ok (some remote)
      → IsAnswered url answer
  unfolding read_response read_bounded_body
  read_response-IsAnswered url (err e) h = let bad : none ≡ some remote = ok_injective _ _ h in cc
  read_response-IsAnswered url (ok response) h = elim (Bool-cases response.is_ok) [
    | inl good ↦
        read_body-IsAnswered url response
          (read_bounded_body platform.to_number response options.max_bytes) good refl (rw good at h)
    | inr bad_status ↦ let bad : none ≡ some remote = ok_injective _ _ (rw bad_status at h) in cc
  ]

  answered-IsResolved :
      (fetch : Text → Result (Unit {0}) Response) (url : Text)
      → options.fetch_impl ≡ some fetch
      → IsDidUrl platform options.allowed_domains url
      → HasPublicHost platform options url
      → IsAnswered url (fetch url)
      → IsResolved
  answered-IsResolved fetch url f did public answered =
      let (response, bytes, a, good, b, read) = answered in
      let (document, d, key, same, source) = read in
      let (_, content, size) =
        (read_bounded_body_iff platform.to_number response options.max_bytes bytes).0 b in
      (
        source,
        subst (IsDidUrl platform options.allowed_domains) same did,
        subst (HasPublicHost platform options) same public,
        (fetch, response, bytes, document, f, ap fetch (sym same) ∙ a, good, content, size, d, key),
        did_document-IsNamed document issuer_id key_id remote.key key,
      )

  fetch_document-IsResolved :
      (fetch : Text → Result (Unit {0}) Response) (url : Text)
      → options.fetch_impl ≡ some fetch
      → IsDidUrl platform options.allowed_domains url
      → fetch_document platform options now issuer_id key_id fetch url ≡ ok (some remote)
      → IsResolved
  unfolding fetch_document
  fetch_document-IsResolved fetch url f did h =
      elim (Option-cases (hostname_from_url platform url)) [
        | inl n ↦
            let bad : none ≡ some remote = ok_injective _ _ (rw (fetch_document, n) at h) in cc
        | inr (hostname, n) ↦
            elim (Bool-cases (resolves_to_public_address platform.is_ip hostname options.lookup)) [
              | inr private ↦
                  let bad : none ≡ some remote =
                    ok_injective _ _ (rw (fetch_document, n, private) at h) in
                  cc
              | inl public ↦
                  answered-IsResolved fetch url f did
                    (resolves-HasPublicHost platform options url hostname n public)
                    (read_response-IsAnswered url (fetch url) (rw (fetch_document, n, public) at h))
            ]
      ]

  -- If the did:web resolver gives material, then its URL is over HTTPS on the default port,
  -- without credentials, query and fragment, on a host that is allowed, the host of the URL has
  -- addresses and all of them are public, and the key is the ES256 key of the issuer, under the
  -- name that was asked for (if one was), that the document has which was fetched from the URL
  -- with a good status and a body within the limit.
  pub create_did_web_resolver-IsResolved :
      create_did_web_resolver platform options now issuer_id key_id ≡ ok (some remote) → IsResolved
  unfolding create_did_web_resolver
  create_did_web_resolver-IsResolved h = elim (Option-cases options.fetch_impl) [
    | inl n ↦
        let bad : none ≡ some remote = ok_injective _ _ (rw (create_did_web_resolver, n) at h) in cc
    | inr (fetch, f) ↦
        elim (Option-cases (resolve_did_web_url platform issuer_id options.allowed_domains)) [
          | inl n ↦
              let bad : none ≡ some remote =
                ok_injective _ _ (rw (create_did_web_resolver, f, n) at h) in
              cc
          | inr (url, u) ↦
              fetch_document-IsResolved fetch url f
                (resolve_did_web_url-IsDidUrl platform options.allowed_domains issuer_id url u)
                (rw (create_did_web_resolver, f, u) at h)
        ]
  ]
