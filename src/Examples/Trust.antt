-- ===== src/Examples/Trust.antt =====
-- Runs of the trust store: a bundle of one file, and a key that it trusts.
use credaryn.Verifier.TrustStore.{same_key}
use credaryn.Base.{
  arith, ℕ, ◌==◌, refl, pos, Option, Bool, true, false, ◌≤◌, some, ℤ, ok, ◌≡◌, length, none, List,
  ◌⊎◌, ◌∷◌, [],
}
use credaryn.Core.Json.{get_field, Json, cons, nil, field, no_field}
use credaryn.Verifier.TrustStore.Bundle.{
  read_anchor_items, read_domain_items, read_did_web_domains, read_x509_anchors, has_base64_form,
  is_base64, read_key, read_key_items, read_keys, read_json_file, read_bundle_file,
  read_bundle_files, measure_file, measure_files, max_trust_bundle_bytes, max_trust_files,
  BundleFile, read_trust_bundle,
}
use credaryn.Verifier.TrustStore.Loaded.{Sizes}
use credaryn.Verifier.TrustStore.Whole.{read_trust_bundle-IsLoaded, IsLoaded}
use credaryn.Verifier.TrustStore.Backed.{
  store_is_trusted-IsBacked, IsConfiguredAs, IsAnchoredAs, IsUnknown, IsCalledFor,
}
use credaryn.Core.TrustPolicy.{matches_key, TrustPolicy, TrustPolicyInput}
use credaryn.Base.Text.{is_space, to_lower_case, trim, is_blank, list_eq, codes, Bytes, Text}
use credaryn.Core.Signer.{es256, SignerKeyInfo}
use credaryn.Verifier.TrustStore.{
  drop_colons, normalize_fingerprint, empty_state, resolve_all, PolicyTrustStoreConfig,
  store_is_trusted,
}
use credaryn.Core.Descriptor.{Url}

abbrev document : Json
document = Json.object (
    field (codes "keys")
      (Json.array (
        cons
          (Json.object (
            field (codes "issuerId") (Json.string (codes "acme")) (
              field (codes "keyId") (Json.string (codes "k1")) (
                field (codes "algorithm") (Json.string (codes "ES256")) (
                  field (codes "publicKey") (Json.string (codes "AA==")) (
                    field (codes "certificateFingerprint") (Json.string (codes "AB:cd"))
                      no_field))))))
          nil))
      (field (codes "didWebDomains") Json.null (
        field (codes "allowedDidWebDomains")
          (Json.array (cons (Json.string (codes "acme.test")) nil)) no_field)))

abbrev parse_json : Bytes → Option Json
parse_json bytes = some document

abbrev from_base64 : Text → Bytes
from_base64 s = 0 ∷ []

abbrev is_public_key : Bytes → Bool
is_public_key bytes = length bytes == 1

abbrev file : BundleFile
file = record { first_stat = ok (true, 300); second_stat = ok (true, 300); content = ok (1 ∷ []) }

abbrev key : SignerKeyInfo
key = record {
  issuer_id = codes "acme";
  key_id = codes "k1";
  algorithm = es256;
  public_key = 0 ∷ [];
  certificate_chain = none;
  certificate_fingerprint = some (codes "AB:cd");
}

abbrev bundle : PolicyTrustStoreConfig
bundle = record {
  keys = key ∷ [];
  x509_anchors = [];
  did_web_domains = codes "acme.test" ∷ [];
  development_only = false;
}

bundle_lem : read_trust_bundle parse_json from_base64 is_public_key (file ∷ []) ≡ ok bundle
unfolding read_trust_bundle measure_files measure_file read_bundle_files read_bundle_file
    read_json_file read_keys get_field list_eq read_key_items read_key is_base64 has_base64_form
    is_blank trim read_x509_anchors read_did_web_domains read_domain_items is_space
    read_anchor_items
bundle_lem = refl

read_trust_bundle-IsLoaded_example :
    (length (file ∷ []) ≤ max_trust_files)
    × ((sum : ℕ) × Sizes (file ∷ []) sum × (sum ≤ max_trust_bundle_bytes))
    × IsLoaded parse_json from_base64 is_public_key (file ∷ []) bundle
read_trust_bundle-IsLoaded_example =
    read_trust_bundle-IsLoaded parse_json from_base64 is_public_key (file ∷ []) bundle bundle_lem

abbrev policy : TrustPolicy
policy = record {
  configured_keys = key ∷ [];
  x509_anchors = [];
  resolver = none;
  allowed_did_web_domains = codes "acme.test" ∷ [];
  max_cache_age_ms = none;
  require_freshness = false;
}

-- The same key, with its fingerprint written otherwise.
abbrev same_key' : SignerKeyInfo
same_key' = record key { certificate_fingerprint = some (codes " abcd ") }

abbrev parse_url : Text → Option Url
parse_url url = none

abbrev parse_date : Text → Option ℤ
parse_date date = none

abbrev calls : List (ℤ × TrustPolicyInput)
calls = (pos 0, record { issuer_id = codes "acme"; key_id = codes "k2" }) ∷ []

trusted_lem :
    store_is_trusted policy (resolve_all parse_url parse_date policy calls empty_state) same_key'
    ≡ true
unfolding store_is_trusted matches_key list_eq same_key normalize_fingerprint is_blank trim
    drop_colons to_lower_case
trusted_lem = refl

store_is_trusted-IsBacked_example :
    IsConfiguredAs policy same_key'
    ⊎ (IsUnknown policy same_key'
        × (IsAnchoredAs policy same_key' ⊎ IsCalledFor parse_url parse_date policy calls same_key'))
store_is_trusted-IsBacked_example =
    store_is_trusted-IsBacked parse_url parse_date policy calls same_key' (omega arith)
      (omega arith) trusted_lem
