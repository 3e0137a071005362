-- ===== src/Paper/Seal/Decode.antt =====
-- packages/paper/src/decode.ts: how a paper seal is read.
use credaryn.Core.Document.{ClaimValue, Claims}
use credaryn.Core.Descriptor.{
  Issues, set_claim, Url, property, production, no_more, DescriptorValidationOptions, Unknown,
  Properties,
}
use credaryn.Base.{
  drop, length, ltb, ◌*◌, leb, is_safe_integer, ◌||◌, ◌/◌, int_eq, if◌then◌else◌, pos, ◌&&◌, not,
  map_err, true, err, refuse_if, [], false, ◌+◌, ok, Bool, none, ℤ, some, ◌>>=◌, ◌∷◌, ◌>>◌, ℕ,
  Result, Option,
}
use credaryn.Base.Text.{trim, list_eq, starts_with, is_blank, codes, Bytes, Text}
use credaryn.Paper.Cbor.{end, DecodeError, num, entry, bool, text, mapping, Value, Entries}
use credaryn.Paper.Seal.{paper_profile_prefix, PaperSealPayload}
use credaryn.Paper.Base45.{decode_base45, Base45Error}
use credaryn.Paper.Cose.{decode_cose_sign1, CoseError, CoseSign1Parts, max_cose_object_bytes}
use credaryn.Base.Utf8.{utf8_encode, utf8_decode}
use credaryn.Paper.Cbor.Decode.{decode_deterministic_cbor}
use credaryn.Core.Descriptor.Validate.{validate_descriptor}

-- The messages of `PaperSealDecodeError`.
pub data SealDecodeError : Type 0 where
  no_prefix transport_too_long transport_not_utf8 payload_not_a_map unknown_field : SealDecodeError
  version_not_1 claims_not_a_map claim_key_invalid claim_value_unsupported : SealDecodeError
  not_an_integer field_empty not_a_string : ℕ → SealDecodeError
  base45_invalid : Base45Error → SealDecodeError
  cose_invalid : CoseError → SealDecodeError
  cbor_invalid : DecodeError → SealDecodeError
  descriptor_invalid : Issues → SealDecodeError

pub data SealInput : Type 0 where
  letters : Text → SealInput
  raw : Bytes → SealInput

pub record DecodedPaperSeal : Type 0 where
  pub transport : Text
  pub cose : Bytes
  pub payload : Bytes
  pub cose_parts : CoseSign1Parts
  pub profile : PaperSealPayload

-- `5 + Math.ceil(MAX_COSE_OBJECT_BYTES / 2) * 3`
abbrev pub max_transport_bytes : ℕ
max_transport_bytes = 5 + (max_cose_object_bytes + 1) / 2 * 3

unfoldable pub decode_transport_bytes : SealInput → Result SealDecodeError Text
decode_transport_bytes (letters s) = ok s
decode_transport_bytes (raw bs) = elim (utf8_decode bs) [
  | none ↦ err transport_not_utf8
  | some s ↦ ok s
]

abbrev pub is_field : ℕ → Value → Bool
is_field n (num z) = int_eq z (pos n)
is_field n _ = false

-- `decoded.get(n)`
unfoldable pub get_field : ℕ → Entries → Option Value
get_field n end = none
get_field n (entry k v es) = if is_field n k then some v else get_field n es

abbrev is_allowed : Value → Bool
is_allowed (num (pos n)) = leb 1 n && leb n 10
is_allowed _ = false

unfoldable pub all_allowed : Entries → Bool
all_allowed end = true
all_allowed (entry k v es) = is_allowed k && all_allowed es

unfoldable pub read_number : Entries → ℕ → Result SealDecodeError ℤ
read_number decoded n = elim (get_field n decoded) [
  | some (num z) ↦ if is_safe_integer z then ok z else err (not_an_integer n)
  | _ ↦ err (not_an_integer n)
]

abbrev pub read_string_value : ℕ → Option Value → Result SealDecodeError Text
read_string_value n (some (text s)) = ok s
read_string_value n _ = err (not_a_string n)

unfoldable pub read_seal_string : Entries → ℕ → Result SealDecodeError Text
read_seal_string decoded n = read_string_value n (get_field n decoded)

unfoldable pub read_non_empty_string : Entries → ℕ → Result SealDecodeError Text
read_non_empty_string decoded n = do
  s ← read_seal_string decoded n
  refuse_if (is_blank s) (field_empty n)
  ok s

abbrev optional_string : ℕ → Option Value → Result SealDecodeError (Option Text)
optional_string n none = ok none
optional_string n (some v) = do s ← read_string_value n (some v); ok (some s)

unfoldable pub read_optional_string : Entries → ℕ → Result SealDecodeError (Option Text)
read_optional_string decoded n = optional_string n (get_field n decoded)

abbrev pub seal_claim_key : Value → Result SealDecodeError Text
seal_claim_key (text s) = do
  refuse_if (is_blank s || not (list_eq s (trim s))) claim_key_invalid
  ok s
seal_claim_key _ = err claim_key_invalid

abbrev pub seal_claim_value : Value → Result SealDecodeError ClaimValue
seal_claim_value (text s) = ok (ClaimValue.string s)
seal_claim_value (bool b) = ok (ClaimValue.boolean b)
seal_claim_value (num z) = do
  refuse_if (not (is_safe_integer z)) claim_value_unsupported
  ok (ClaimValue.number z)
seal_claim_value _ = err claim_value_unsupported

-- The loop of `readClaims`.
unfoldable pub read_seal_claims : Entries → Claims → Result SealDecodeError Claims
read_seal_claims end claims = ok claims
read_seal_claims (entry k v es) claims = do
  key ← seal_claim_key k
  claim ← seal_claim_value v
  read_seal_claims es (set_claim key claim claims)

abbrev pub read_claims_field : Option Value → Result SealDecodeError Claims
read_claims_field (some (mapping es)) = read_seal_claims es []
read_claims_field _ = err claims_not_a_map

abbrev pub unknown_claim : ClaimValue → Unknown
unknown_claim (ClaimValue.string s) = Unknown.string s
unknown_claim (ClaimValue.boolean b) = Unknown.boolean b
unknown_claim (ClaimValue.number z) = Unknown.number z

unfoldable pub claim_properties : Claims → Properties
claim_properties [] = no_more
claim_properties ((key, claim) ∷ claims) =
    property key (unknown_claim claim) (claim_properties claims)

abbrev pub status_property : Option Text → Properties
status_property none = no_more
status_property (some s) = property (codes "statusUrl") (Unknown.string s) no_more

-- The object that is validated.
unfoldable pub profile_object : PaperSealPayload → Unknown
profile_object profile = Unknown.object (
    property (codes "issuerId") (Unknown.string profile.issuer_id) (
      property (codes "documentId") (Unknown.string profile.document_id) (
        property (codes "documentType") (Unknown.string profile.document_type) (
          property (codes "issuedAt") (Unknown.string profile.issued_at) (
            property (codes "claims") (Unknown.object (claim_properties profile.claims))
              (status_property profile.status_url))))))

-- `decodeProfilePayload`, from the decoded map to the profile.
unfoldable pub read_profile : Entries → Result SealDecodeError PaperSealPayload
read_profile decoded = do
  refuse_if (not (all_allowed decoded)) unknown_field
  version ← read_number decoded 1
  issuer ← read_non_empty_string decoded 2
  key ← read_non_empty_string decoded 3
  document ← read_non_empty_string decoded 4
  kind ← read_non_empty_string decoded 5
  issued ← read_seal_string decoded 6
  claims' ← read_claims_field (get_field 7 decoded)
  refuse_if (not (int_eq version (pos 1))) version_not_1
  url ← read_optional_string decoded 8
  digest ← read_optional_string decoded 9
  fingerprint ← read_optional_string decoded 10
  ok (record {
    issuer_id = issuer;
    key_id = key;
    document_id = document;
    document_type = kind;
    issued_at = issued;
    claims = claims';
    status_url = url;
    artifact_digest = digest;
    certificate_fingerprint = fingerprint;
  })

abbrev pub map_of : Value → Result SealDecodeError Entries
map_of (mapping es) = ok es
map_of _ = err payload_not_a_map

abbrev pub default_options : DescriptorValidationOptions
default_options = record { environment = production; require_explicit_currency = false }

module _ (date_parses : Text → Bool) (parse_url : Text → Option Url) where
  unfoldable pub decode_profile_payload : Bytes → Result SealDecodeError PaperSealPayload
  decode_profile_payload input = do
    decoded ← map_err cbor_invalid (decode_deterministic_cbor input)
    fields ← map_of decoded
    read ← read_profile fields
    descriptor ←
        map_err descriptor_invalid
          (validate_descriptor date_parses parse_url (profile_object read) default_options)
    ok read

  unfoldable pub decode_paper_seal : SealInput → Result SealDecodeError DecodedPaperSeal
  decode_paper_seal input = do
    content ← decode_transport_bytes input
    refuse_if (not (starts_with content paper_profile_prefix)) no_prefix
    refuse_if (ltb max_transport_bytes (length (utf8_encode content))) transport_too_long
    object ← map_err base45_invalid (decode_base45 (drop 5 content))
    parts ← map_err cose_invalid (decode_cose_sign1 object)
    read ← decode_profile_payload parts.payload
    ok (record {
      transport = content;
      cose = object;
      payload = parts.payload;
      cose_parts = parts;
      profile = read;
    })
