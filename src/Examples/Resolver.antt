-- ===== src/Examples/Resolver.antt =====
-- A run of the did:web resolver, from the name of an issuer to its key.
use credaryn.Core.TrustPolicy.Evaluate.{
  is_valid_did_web, has_valid_anchor, satisfies_policy, decide_remote, judge_answer, freshness_of,
}
use credaryn.Base.{
  ◌⊎◌, false, int_sub, ◌≤◌, pos, length, refl, ℤ, none, ◌↔◌, if◌then◌else◌, Option, ok, ◌≡◌, ℕ,
  true, some, ◌∷◌, [],
}
use credaryn.Core.Json.{get_field, Json, string, array, object, cons, nil, field, no_field}
use credaryn.Core.DidWeb.Body.{
  read_chunks, read_body, allows_length, read_bounded_body, Response, stream,
}
use credaryn.Core.DidWeb.Bounded.{read_bounded_body_iff, contents}
use credaryn.Core.DidWeb.Fetched.{create_did_web_resolver-IsResolved, IsResolved}
use credaryn.Core.DidWeb.Resolver.{
  url_of_segments, resolve_did_web_url, read_response, read_document, is_good_url, is_bad_host,
  hostname_from_url, fetch_document, decode_segments, candidate_url, Platform,
  DidWebResolverOptions, create_did_web_resolver,
}
use credaryn.Base.Text.{
  trim, to_lower_case, is_space, ends_with, Bytes, list_eq, starts_with, Text, codes,
}
use credaryn.Core.TrustPolicy.{
  is_allowed_did_web_domain, is_https_url, remember, matches_key, is_trusted_decision, TrustPolicy,
  TrustPolicyInput, is_allowed_domain, allows, did_web, RemoteTrustMaterial,
}
use credaryn.Core.Signer.{SignerKeyInfo, es256}
use credaryn.Core.Descriptor.{Url}
use credaryn.Base.Split.{split, read_digits, after_first}
use credaryn.Core.DidWeb.Encodings.{read_pairs, decode_hex}
use credaryn.Core.DidWeb.Ipv6.{hex_value}
use credaryn.Core.DidWeb.Document.{
  signer_key, requested_fragment, read_other_key, is_requested, fragment, find_method,
  extract_public_key, did_document_signer_key,
}
use credaryn.Core.DidWeb.Private.{resolves_to_public_address, is_private_address, is_ip_literal}
use credaryn.Core.DidWeb.Address.{
  read_octets, read_octet, is_private_octets, is_private_ipv4, is_octet_text,
}
use credaryn.Core.TrustPolicy.Evaluate.{ask_resolver, evaluate}
use credaryn.Core.TrustPolicy.Justified.{IsVouched, IsConfigured}
use credaryn.Core.DidWeb.Policy.{evaluate-IsResolved}
use credaryn.Base.Maps.{put}

abbrev to_number : Text → Option ℤ
to_number s = if list_eq s (codes "3") then some (pos 3) else none

abbrev response : Response
response = record {
  is_ok = true;
  content_length = some (codes "3");
  body = stream (ok (some (123 ∷ [])) ∷ ok none ∷ ok (some (32 ∷ 125 ∷ [])) ∷ []);
}

abbrev object_text : Bytes
object_text = 123 ∷ 32 ∷ 125 ∷ []

read_bounded_body_iff_example : (read_bounded_body to_number response 3 ≡ ok (some object_text)) ↔ (
    (allows_length to_number 3 response.content_length ≡ true)
    × (contents response.body ≡ some object_text)
    × (length object_text ≤ 3))
read_bounded_body_iff_example = read_bounded_body_iff to_number response 3 object_text

-- A byte too many.
body_is_refused : read_bounded_body to_number response 2 ≡ ok none
unfolding read_bounded_body allows_length list_eq int_sub
body_is_refused = refl

abbrev issuer : Text
issuer = codes "did:web:acme.test"

abbrev document : Json
document = object (
    field (codes "id") (string issuer) (
      field (codes "verificationMethod")
        (array (
          cons
            (object (
              field (codes "id") (string (codes "did:web:acme.test#k1"))
                (field (codes "publicKeyHex") (string (codes "04ff")) no_field)))
            nil))
        no_field))

abbrev parse_url : Text → Option Url
parse_url url =
    if starts_with url (codes "https://acme.test/")
    then some (record {
      protocol = codes "https:";
      hostname = codes "acme.test";
      username = [];
      password = [];
      port = [];
      search = [];
      hash = [];
      href = url;
    })
    else none

abbrev is_ip : Text → ℕ
is_ip s = if list_eq s (codes "93.184.216.34") then 4 else 0

abbrev platform : Platform
platform = record {
  parse_url = parse_url;
  is_ip = is_ip;
  decode_component = λ s. some s;
  parse_json = λ bytes. some document;
  to_number = to_number;
}

abbrev options : DidWebResolverOptions
options = record {
  fetch_impl = some (λ url. ok response);
  allowed_domains = codes "acme.test" ∷ [];
  max_bytes = 262144;
  lookup = λ hostname. ok (codes "93.184.216.34" ∷ []);
}

abbrev remote : RemoteTrustMaterial
remote = record {
  key = record {
    issuer_id = issuer;
    key_id = codes "k1";
    algorithm = es256;
    public_key = 4 ∷ 0xff ∷ [];
    certificate_chain = none;
    certificate_fingerprint = none;
  };
  url = codes "https://acme.test/.well-known/did.json";
  fetched_at = codes "now";
  source = did_web;
}

resolver_lem :
    create_did_web_resolver platform options (codes "now") issuer (codes "k1") ≡ ok (some remote)
unfolding after_first allows allows_length candidate_url create_did_web_resolver decode_hex
    decode_segments did_document_signer_key ends_with extract_public_key fetch_document find_method
    fragment get_field hex_value hostname_from_url int_sub is_allowed_domain is_bad_host is_good_url
    is_ip_literal is_octet_text is_private_address is_private_ipv4 is_private_octets is_requested
    is_space list_eq read_body read_bounded_body read_chunks read_digits read_document read_octet
    read_octets read_other_key read_pairs read_response requested_fragment resolve_did_web_url
    resolves_to_public_address signer_key split starts_with to_lower_case trim url_of_segments
resolver_lem = refl

create_did_web_resolver-IsResolved_example :
    IsResolved platform options (codes "now") issuer (codes "k1") remote
create_did_web_resolver-IsResolved_example =
    create_did_web_resolver-IsResolved platform options (codes "now") issuer (codes "k1") remote
      resolver_lem

abbrev policy : TrustPolicy
policy = record {
  configured_keys = [];
  x509_anchors = [];
  resolver = some (create_did_web_resolver platform options (codes "now"));
  allowed_did_web_domains = codes "acme.test" ∷ [];
  max_cache_age_ms = none;
  require_freshness = false;
}

abbrev parse_date : Text → Option ℤ
parse_date date = none

abbrev input : TrustPolicyInput
input = record { issuer_id = issuer; key_id = codes "k1" }

policy_lem :
    is_trusted_decision (evaluate parse_url parse_date policy (pos 0) input []).0.trust_decision
    ≡ true
unfolding evaluate ask_resolver judge_answer matches_key list_eq remember decide_remote
    satisfies_policy has_valid_anchor is_valid_did_web is_https_url starts_with
    is_allowed_did_web_domain is_allowed_domain allows to_lower_case trim freshness_of put ends_with
    is_space
policy_lem = rw (evaluate, ask_resolver, resolver_lem) refl

evaluate-IsResolved_example :
    (key : SignerKeyInfo) × ((evaluate parse_url parse_date policy (pos 0) input []).0.key
      ≡ some key)
    × (IsConfigured policy input key
        ⊎ ((found : RemoteTrustMaterial) × (found.key ≡ key)
            × IsResolved platform options (codes "now") issuer (codes "k1") found
            × IsVouched parse_url parse_date policy (pos 0) input found))
evaluate-IsResolved_example =
    evaluate-IsResolved platform options (codes "now") parse_date policy (pos 0) input [] refl
      policy_lem
