-- ===== src/Core/DidWeb/Resolver.antt =====
-- trust-policy.ts: resolveDidWebUrl, hostnameFromUrl and createDidWebResolver. The URL parser, `isIP`,
-- `decodeURIComponent`, `JSON.parse` of decoded bytes, `Number`, `fetch`, the lookup of names and the
-- time are parameters.
use credaryn.Base.{
  any, ◌&&◌, not, drop, ℤ, ◌==◌, length, ◌++◌, ◌||◌, err, ok, Result, Bool, some, none,
  if◌then◌else◌, Option, ℕ, List, ◌∷◌, [],
}
use credaryn.Core.DidWeb.Document.{did_document_signer_key}
use credaryn.Core.DidWeb.Body.{read_bounded_body, Response}
use credaryn.Core.DidWeb.Private.{is_ip_literal, resolves_to_public_address}
use credaryn.Core.TrustPolicy.{is_allowed_domain, did_web, TrustResolver, RemoteTrustMaterial}
use credaryn.Core.Json.{Json}
use credaryn.Core.Descriptor.{Url}
use credaryn.Base.Split.{split, join}
use credaryn.Base.Options.{◌>>=◌}
use credaryn.Base.Text.{is_space, list_eq, starts_with, Bytes, codes, Text}

-- What the code takes from the platform.
pub record Platform : Type 0 where
  pub parse_url : Text → Option Url
  pub is_ip : Text → ℕ
  pub decode_component : Text → Option Text
  pub parse_json : Bytes → Option Json
  pub to_number : Text → Option ℤ

-- `fetch_impl` is none where there is none.
pub record DidWebResolverOptions : Type 0 where
  pub fetch_impl : Option (Text → Result (Unit {0}) Response)
  pub allowed_domains : List Text
  pub max_bytes : ℕ
  pub lookup : Text → Result (Unit {0}) (List Text)

-- `/[\s/?#@\\]/`
abbrev pub is_host_breaker : ℕ → Bool
is_host_breaker c = is_space c || c == b'/' || c == b'?' || c == b'#' || c == b'@' || c == b'\\'

-- `/[/\\?#]/`
abbrev pub is_path_breaker : ℕ → Bool
is_path_breaker c = c == b'/' || c == b'\\' || c == b'?' || c == b'#'

unfoldable pub is_bad_host : (Text → ℕ) → Text → Bool
is_bad_host is_ip host = length host == 0 || any is_host_breaker host || is_ip_literal is_ip host

unfoldable pub is_bad_segment : Text → Bool
is_bad_segment decoded =
    length decoded == 0
    || list_eq decoded (codes ".")
    || list_eq decoded (codes "..")
    || any is_path_breaker decoded

unfoldable pub candidate_url : Text → List Text → Text
candidate_url host [] = codes "https://" ++ (host ++ codes "/.well-known/did.json")
candidate_url host (s ∷ segments) =
    codes "https://" ++ (host ++ b'/' ∷ (join (b'/' ∷ []) (s ∷ segments) ++ codes "/did.json"))

-- The tests of the URL that the parser gives.
unfoldable pub is_good_url : Url → List Text → Bool
is_good_url parsed allowed_domains =
    list_eq parsed.protocol (codes "https:")
    && length parsed.username == 0
    && length parsed.password == 0
    && length parsed.port == 0
    && length parsed.search == 0
    && length parsed.hash == 0
    && is_allowed_domain parsed.hostname allowed_domains

module _ (platform : Platform) where
  -- The loop over the path.
  unfoldable pub decode_segments : List Text → Option (List Text)
  decode_segments [] = some []
  decode_segments (s ∷ segments) = do
    decoded ← platform.decode_component s
    rest ← decode_segments segments
    if is_bad_segment decoded then none else some (decoded ∷ rest)

  unfoldable pub url_of_segments : List Text → List Text → Option Text
  url_of_segments allowed_domains [] = none
  url_of_segments allowed_domains (s ∷ segments) = do
    host ← platform.decode_component s
    path ← decode_segments segments
    parsed ← platform.parse_url (candidate_url host path)
    if is_bad_host platform.is_ip host || not (is_good_url parsed allowed_domains)
        then none
        else some parsed.href

  unfoldable pub resolve_did_web_url : Text → List Text → Option Text
  resolve_did_web_url issuer_id allowed_domains =
      if starts_with issuer_id (codes "did:web:")
      then url_of_segments allowed_domains (split b':' (drop 8 issuer_id))
      else none

  unfoldable pub hostname_from_url : Text → Option Text
  hostname_from_url url = do
    parsed ← platform.parse_url url
    if length parsed.hostname == 0 then none else some parsed.hostname

  -- What is behind the bounded body.
  unfoldable pub read_document :
      Text → Text → Text → Text → Option Bytes → Option RemoteTrustMaterial
  read_document now url issuer_id key_id body = do
    bytes ← body
    document ← platform.parse_json bytes
    key ← did_document_signer_key document issuer_id key_id
    some (record { key = key; url = url; fetched_at = now; source = did_web })

  unfoldable pub read_response :
      ℕ
      → Text
      → Text
      → Text
      → Text
      → Result (Unit {0}) Response
      → Result (Unit {0}) (Option RemoteTrustMaterial)
  read_response max_bytes now url issuer_id key_id (err _) = ok none
  read_response max_bytes now url issuer_id key_id (ok response) =
      if response.is_ok
      then elim (read_bounded_body platform.to_number response max_bytes) [
        | err e ↦ err e
        | ok body ↦ ok (read_document now url issuer_id key_id body)
      ]
      else ok none

  unfoldable pub fetch_document :
      DidWebResolverOptions
      → Text
      → Text
      → Text
      → (Text → Result (Unit {0}) Response)
      → Text
      → Result (Unit {0}) (Option RemoteTrustMaterial)
  fetch_document options now issuer_id key_id fetch url = elim (hostname_from_url url) [
    | none ↦ ok none
    | some hostname ↦
        if resolves_to_public_address platform.is_ip hostname options.lookup
        then read_response options.max_bytes now url issuer_id key_id (fetch url)
        else ok none
  ]

  -- The resolver at a time, as an ISO date.
  unfoldable pub create_did_web_resolver : DidWebResolverOptions → Text → TrustResolver
  create_did_web_resolver options now issuer_id key_id = elim options.fetch_impl [
    | none ↦ ok none
    | some fetch ↦ elim (resolve_did_web_url issuer_id options.allowed_domains) [
      | none ↦ ok none
      | some url ↦ fetch_document options now issuer_id key_id fetch url
    ]
  ]
