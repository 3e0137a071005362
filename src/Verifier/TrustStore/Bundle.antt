-- ===== src/Verifier/TrustStore/Bundle.antt =====
-- trust-store.ts: readTrustBundle and its readers. The files are given as what `stat` and `readFile` say
-- of them. `JSON.parse` of the strictly decoded text, `Buffer.from` of a Base64 text and the test of
-- `createPublicKey` are parameters. A message carries the position of the entry that it names.
use credaryn.Core.Json.{
  as_record, Json, Items, Fields, nil, cons, object, array, string, get_field, as_string,
}
use credaryn.Base.{
  String, ◌++◌, ◌*◌, map_err, not, refuse_if, ◌>>◌, ◌||◌, ◌%◌, none, ◌+◌, if◌then◌else◌, ◌&&◌,
  length, some, ◌>>=◌, ok, leb, ◌==◌, true, ltb, false, err, List, Bool, Result, ℕ, Option, ◌∷◌, [],
}
use credaryn.Core.TrustPolicy.{X509TrustAnchor}
use credaryn.Base.Text.{list_eq, is_blank, codes, Bytes, Text}
use credaryn.Core.Signer.{es256, SignerKeyInfo}
use credaryn.Verifier.TrustStore.{PolicyTrustStoreConfig}

-- The messages of `TrustStoreLoadError`.
pub data TrustStoreLoadError : Type 0 where
  too_many_files file_unreadable not_an_object : TrustStoreLoadError
  keys_not_array anchors_not_array domains_not_array : TrustStoreLoadError
  key_invalid key_metadata key_bytes key_fingerprint : ℕ → TrustStoreLoadError
  anchor_invalid anchor_metadata domain_invalid : ℕ → TrustStoreLoadError

-- `/^(?:[A-Za-z0-9+/]{4})*(?:[A-Za-z0-9+/]{2}==|[A-Za-z0-9+/]{3}=)?$/`
abbrev is_base64_digit : ℕ → Bool
is_base64_digit c =
    leb b'A' c && leb c b'Z'
    || leb b'a' c && leb c b'z'
    || leb b'0' c && leb c b'9'
    || c == b'+'
    || c == b'/'

abbrev is_last_quad : ℕ → ℕ → Bool
is_last_quad c d = c == b'=' && d == b'=' || is_base64_digit c && d == b'='

unfoldable pub has_base64_form : Text → Bool
has_base64_form [] = true
has_base64_form (a ∷ b ∷ c ∷ d ∷ s) =
    let rest = has_base64_form s in
    is_base64_digit a
    && is_base64_digit b
    && (is_base64_digit c && is_base64_digit d && rest || is_last_quad c d && length s == 0)
has_base64_form _ = false

unfoldable pub is_base64 : Text → Bool
is_base64 value = ltb 0 (length value) && length value % 4 == 0 && has_base64_form value

-- A fingerprint that is there and is no text, or is blank.
abbrev pub is_bad_fingerprint : Option Json → Bool
is_bad_fingerprint none = false
is_bad_fingerprint (some (string s)) = is_blank s
is_bad_fingerprint _ = true

-- A property that is a text.
abbrev pub text_field : String → Fields → Option Text
text_field name fields = as_string (get_field (codes name) fields)

abbrev pub required_text : Option Text → TrustStoreLoadError → Result TrustStoreLoadError Text
required_text none e = err e
required_text (some s) e = ok s

module _ (from_base64 : Text → Bytes) (is_public_key : Bytes → Bool) where
  unfoldable pub read_key : ℕ → Fields → Result TrustStoreLoadError SignerKeyInfo
  read_key index key = do
    issuer ← required_text (text_field "issuerId" key) (key_metadata index)
    id ← required_text (text_field "keyId" key) (key_metadata index)
    algorithm ← required_text (text_field "algorithm" key) (key_metadata index)
    refuse_if (not (list_eq algorithm es256)) (key_metadata index)
    encoded ← required_text (text_field "publicKey" key) (key_metadata index)
    refuse_if (not (is_base64 encoded)) (key_bytes index)
    refuse_if (not (is_public_key (from_base64 encoded))) (key_bytes index)
    refuse_if (is_bad_fingerprint (get_field (codes "certificateFingerprint") key))
        (key_fingerprint index)
    ok (record {
      issuer_id = issuer;
      key_id = id;
      algorithm = es256;
      public_key = from_base64 encoded;
      certificate_chain = none;
      certificate_fingerprint = text_field "certificateFingerprint" key;
    })

  unfoldable pub read_key_items : ℕ → Items → Result TrustStoreLoadError (List SignerKeyInfo)
  read_key_items index nil = ok []
  read_key_items index (cons (object entry) entries) = do
    key ← read_key index entry
    keys ← read_key_items (index + 1) entries
    ok (key ∷ keys)
  read_key_items index (cons _ entries) = err (key_invalid index)

  unfoldable pub read_keys : Option Json → Result TrustStoreLoadError (List SignerKeyInfo)
  read_keys none = ok []
  read_keys (some (array entries)) = read_key_items 0 entries
  read_keys (some _) = err keys_not_array

abbrev pub non_blank : Option Text → TrustStoreLoadError → Result TrustStoreLoadError Text
non_blank none e = err e
non_blank (some s) e = if is_blank s then err e else ok s

unfoldable pub read_anchor_items : ℕ → Items → Result TrustStoreLoadError (List X509TrustAnchor)
read_anchor_items index nil = ok []
read_anchor_items index (cons (object anchor) entries) = do
  issuer ← non_blank (text_field "issuerId" anchor) (anchor_metadata index)
  print ← non_blank (text_field "certificateFingerprint" anchor) (anchor_metadata index)
  rest ← read_anchor_items (index + 1) entries
  ok (record { issuer_id = issuer; certificate_fingerprint = print } ∷ rest)
read_anchor_items index (cons _ entries) = err (anchor_invalid index)

unfoldable pub read_x509_anchors : Option Json → Result TrustStoreLoadError (List X509TrustAnchor)
read_x509_anchors none = ok []
read_x509_anchors (some (array entries)) = read_anchor_items 0 entries
read_x509_anchors (some _) = err anchors_not_array

unfoldable pub read_domain_items : ℕ → Items → Result TrustStoreLoadError (List Text)
read_domain_items index nil = ok []
read_domain_items index (cons entry entries) = do
  domain ← non_blank (as_string (some entry)) (domain_invalid index)
  rest ← read_domain_items (index + 1) entries
  ok (domain ∷ rest)

unfoldable pub read_did_web_domains : Option Json → Result TrustStoreLoadError (List Text)
read_did_web_domains none = ok []
read_did_web_domains (some (array entries)) = read_domain_items 0 entries
read_did_web_domains (some _) = err domains_not_array

-- What the file system says of a file: whether it is one and its size, when all files are measured and
-- when it is read, and its bytes.
pub record BundleFile : Type 0 where
  pub first_stat : Result (Unit {0}) (Bool × ℕ)
  pub second_stat : Result (Unit {0}) (Bool × ℕ)
  pub content : Result (Unit {0}) Bytes

abbrev pub max_trust_file_bytes : ℕ
max_trust_file_bytes = 1024 * 1024

abbrev pub max_trust_files : ℕ
max_trust_files = 64

abbrev pub max_trust_bundle_bytes : ℕ
max_trust_bundle_bytes = 8 * 1024 * 1024

-- The size of a file that is one and is not too long.
unfoldable pub measure_file : Result (Unit {0}) (Bool × ℕ) → Result TrustStoreLoadError ℕ
measure_file (err _) = err file_unreadable
measure_file (ok (is_file, size)) = do
  refuse_if (not is_file || ltb max_trust_file_bytes size) file_unreadable
  ok size

-- The loop over the sizes, with the total so far.
unfoldable pub measure_files : ℕ → List BundleFile → Result TrustStoreLoadError (Unit {0})
measure_files total [] = ok tt
measure_files total (file ∷ files) = do
  size ← measure_file file.first_stat
  refuse_if (ltb max_trust_bundle_bytes (total + size)) file_unreadable
  measure_files (total + size) files

abbrev is_true : Option Json → Bool
is_true (some (Json.boolean b)) = b
is_true _ = false

-- `first ?? second`, which takes null for undefined.
abbrev pub first_defined : Option Json → Option Json → Option Json
first_defined (some Json.null) second = second
first_defined (some value) second = some value
first_defined none second = second

abbrev pub join_bundles : PolicyTrustStoreConfig → PolicyTrustStoreConfig → PolicyTrustStoreConfig
join_bundles first rest = record {
  keys = first.keys ++ rest.keys;
  x509_anchors = first.x509_anchors ++ rest.x509_anchors;
  did_web_domains = first.did_web_domains ++ rest.did_web_domains;
  development_only = first.development_only || rest.development_only;
}

abbrev pub empty_bundle : PolicyTrustStoreConfig
empty_bundle = record {
  keys = [];
  x509_anchors = [];
  did_web_domains = [];
  development_only = false;
}

module _ (parse_json : Bytes → Option Json) (from_base64 : Text → Bytes)
    (is_public_key : Bytes → Bool) where
  unfoldable pub read_json_file : BundleFile → Result TrustStoreLoadError Fields
  read_json_file file = do
    size ← measure_file file.second_stat
    bytes ← map_err (λ _. file_unreadable) file.content
    elim (as_record (parse_json bytes)) [ none ↦ err not_an_object | some fields ↦ ok fields ]

  unfoldable pub read_bundle_file : BundleFile → Result TrustStoreLoadError PolicyTrustStoreConfig
  read_bundle_file file = do
    parsed ← read_json_file file
    keys ← read_keys from_base64 is_public_key (get_field (codes "keys") parsed)
    anchors ← read_x509_anchors (get_field (codes "x509Anchors") parsed)
    domains ← read_did_web_domains (
        first_defined (get_field (codes "didWebDomains") parsed)
          (get_field (codes "allowedDidWebDomains") parsed))
    ok (record {
      keys = keys;
      x509_anchors = anchors;
      did_web_domains = domains;
      development_only = is_true (get_field (codes "developmentOnly") parsed);
    })

  -- The loop that fills the bundle.
  unfoldable pub read_bundle_files :
      List BundleFile → Result TrustStoreLoadError PolicyTrustStoreConfig
  read_bundle_files [] = ok empty_bundle
  read_bundle_files (file ∷ files) = do
    first ← read_bundle_file file
    rest ← read_bundle_files files
    ok (join_bundles first rest)

  unfoldable pub read_trust_bundle :
      List BundleFile → Result TrustStoreLoadError PolicyTrustStoreConfig
  read_trust_bundle files = do
    refuse_if (ltb max_trust_files (length files)) too_many_files
    measure_files 0 files
    read_bundle_files files
