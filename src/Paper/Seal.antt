-- ===== src/Paper/Seal.antt =====
-- packages/paper/src/encode.ts: the payload of a paper seal, and how a seal is issued.
pub mod Decode
pub mod Verify
pub mod Verified
pub mod Validated
use credaryn.Core.Document.{ClaimValue, Claims, DocumentDescriptor}
use credaryn.Core.Descriptor.{Url, DescriptorEnvironment, Issues, Unknown}
use credaryn.Base.Text.{is_blank, list_eq, codes, Text, Bytes}
use credaryn.Base.{
  ltb, length, not, ok, refuse_if, replicate, ◌>>◌, false, ◌++◌, map_err, none, ◌∷◌, ◌>>=◌, some,
  [], pos, Result, Bool, Option, ℕ,
}
use credaryn.Paper.Cbor.{entry, mapping, bool, num, EncodeError, text, end, Value, Entries}
use credaryn.Paper.Cose.{
  encode_cose_sign1_parts, build_signature_input, max_cose_object_bytes, entries_of, cose_object,
  encode_headers, CoseError, Headers,
}
use credaryn.Core.Signer.{es256, SignerKeyInfo}
use credaryn.Core.Trust.{SignerProvider}
use credaryn.Paper.Cose.Create.{validate_signer_key_info, create_cose_sign1, es256_headers}
use credaryn.Paper.Cbor.Encode.{encode_deterministic_cbor}
use credaryn.Core.Descriptor.Validate.{validate_descriptor}
use credaryn.Paper.Base45.{character, encode_chunks, encode_base45}
use credaryn.Paper.Der.{signature_to_raw}

-- The `version` is always 1.
pub record PaperSealPayload : Type 0 where
  pub issuer_id : Text
  pub key_id : Text
  pub document_id : Text
  pub document_type : Text
  pub issued_at : Text
  pub claims : Claims
  pub status_url : Option Text
  pub artifact_digest : Option Text
  pub certificate_fingerprint : Option Text

pub record PaperSealEncodeOptions : Type 0 where
  pub artifact_digest : Option Text
  pub digital_artifact_digest : Option Text
  pub certificate_fingerprint : Option Text
  pub environment : DescriptorEnvironment

pub record PaperSealEncoding : Type 0 where
  pub transport : Text
  pub payload : Bytes
  pub cose : Bytes
  pub key_info : SignerKeyInfo

-- What `encodePaperSeal` throws.
pub data SealEncodeError : Type 0 where
  descriptor_invalid : Issues → SealEncodeError
  key_info_unavailable wrong_algorithm wrong_issuer empty_key_id base45_refused : SealEncodeError
  cbor_refused : EncodeError → SealEncodeError
  too_large : ℕ → SealEncodeError
  cose_refused : CoseError → SealEncodeError

abbrev pub paper_profile_prefix : Text
paper_profile_prefix = codes "CRD1:"

-- `first ?? second`
abbrev pub or_else : Option Text → Option Text → Option Text
or_else none second = second
or_else (some s) second = some s

unfoldable pub create_paper_seal_payload :
    DocumentDescriptor → Text → PaperSealEncodeOptions → PaperSealPayload
create_paper_seal_payload descriptor id options = record {
  issuer_id = descriptor.issuer_id;
  key_id = id;
  document_id = descriptor.document_id;
  document_type = descriptor.document_type;
  issued_at = descriptor.issued_at;
  claims = descriptor.claims;
  status_url = descriptor.status_url;
  artifact_digest = or_else options.digital_artifact_digest options.artifact_digest;
  certificate_fingerprint = options.certificate_fingerprint;
}

abbrev pub value_of : ClaimValue → Value
value_of (ClaimValue.string s) = text s
value_of (ClaimValue.boolean b) = bool b
value_of (ClaimValue.number z) = num z

-- `new Map(Object.entries(claims))`
unfoldable pub claim_entries : Claims → Entries
claim_entries [] = end
claim_entries ((key, claim) ∷ claims) = entry (text key) (value_of claim) (claim_entries claims)

abbrev pub optional_field : ℕ → Option Text → Headers
optional_field label none = []
optional_field label (some s) = (pos label, text s) ∷ []

unfoldable pub to_cbor_map : PaperSealPayload → Headers
to_cbor_map profile =
    (pos 1, num (pos 1))
    ∷ (pos 2, text profile.issuer_id)
    ∷ (pos 3, text profile.key_id)
    ∷ (pos 4, text profile.document_id)
    ∷ (pos 5, text profile.document_type)
    ∷ (pos 6, text profile.issued_at)
    ∷ (pos 7, mapping (claim_entries profile.claims))
    ∷ (optional_field 8 profile.status_url
        ++ optional_field 9 profile.artifact_digest
        ++ optional_field 10 profile.certificate_fingerprint)

-- The length of the object with an empty signature in the place of the real one.
unfoldable pub measure_cose_sign1 : Bytes → Text → Result EncodeError ℕ
measure_cose_sign1 content id = do
  protected_bytes ← encode_headers (es256_headers id)
  encoded ← encode_deterministic_cbor (
      cose_object protected_bytes (record {
        protected_headers = es256_headers id;
        unprotected_headers = end;
        payload = content;
        signature = replicate 64 0;
      }))
  ok (length encoded)

-- The seal asks the signer for its key twice: `key_info` is the first answer, the signer's own the
-- second. `Date.parse` and the `URL` parser are parameters.
module _ (date_parses : Text → Bool) (parse_url : Text → Option Url) where
  unfoldable pub encode_paper_seal :
      Unknown
      → Result (Unit {0}) SignerKeyInfo
      → SignerProvider
      → PaperSealEncodeOptions
      → Result SealEncodeError PaperSealEncoding
  encode_paper_seal input key_info signer options = do
    descriptor ← map_err descriptor_invalid (
        validate_descriptor date_parses parse_url input
          (record { environment = options.environment; require_explicit_currency = false }))
    info ← map_err (λ _. key_info_unavailable) key_info
    refuse_if (not (list_eq info.algorithm es256)) SealEncodeError.wrong_algorithm
    refuse_if (not (list_eq info.issuer_id descriptor.issuer_id)) wrong_issuer
    refuse_if (is_blank info.key_id) SealEncodeError.empty_key_id
    let profile = create_paper_seal_payload descriptor info.key_id (record options {
      certificate_fingerprint =
          or_else info.certificate_fingerprint options.certificate_fingerprint;
    })
    content ←
        map_err cbor_refused
          (encode_deterministic_cbor (mapping (entries_of (to_cbor_map profile))))
    size ← map_err cbor_refused (measure_cose_sign1 content info.key_id)
    refuse_if (ltb max_cose_object_bytes size) (too_large size)
    object ← map_err cose_refused (create_cose_sign1 content signer)
    letters ← map_err (λ _. base45_refused) (encode_base45 object)
    ok (record {
      transport = paper_profile_prefix ++ letters;
      payload = content;
      cose = object;
      key_info = info;
    })

-- The issue of a seal beside the validation and the CBOR encoder, for a run of it.
unfoldable pub issuing : Unit {0}
unfolding encode_paper_seal create_paper_seal_payload claim_entries to_cbor_map measure_cose_sign1
    create_cose_sign1 validate_signer_key_info encode_headers entries_of build_signature_input
    signature_to_raw encode_cose_sign1_parts encode_base45 encode_chunks character is_blank
issuing = tt
