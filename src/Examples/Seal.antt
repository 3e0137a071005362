-- ===== src/Examples/Seal.antt =====
-- packages/paper: a seal of the document "d" of "acme", issued, read and verified.
use credaryn.Core.Document.{ClaimValue, DocumentDescriptor, VerificationResult, Verdict}
use credaryn.Core.Descriptor.{Url, no_more, production, property, Unknown}
use credaryn.Core.Signer.{es256, SignerKeyInfo}
use credaryn.Base.Text.{list_eq, starts_with, Bytes, Text, codes}
use credaryn.Core.Trust.{SignerProvider, TrustStore}
use credaryn.Paper.Seal.Decode.{
  profile_object, decode_paper_seal, letters, DecodedPaperSeal, default_options, SealDecodeError,
}
use credaryn.Paper.Seal.{
  issuing, encode_paper_seal, create_paper_seal_payload, PaperSealEncodeOptions, PaperSealPayload,
}
use credaryn.Core.Descriptor.Validate.{validate_descriptor, validator}
use credaryn.Paper.Cbor.Encode.{encoder}
use credaryn.Base.{
  refl, ◌≡◌, [], some, true, ◌++◌, replicate, ok, Bool, Option, Result, pos, ◌∷◌, none,
}
use credaryn.Paper.Cbor.Decode.{decoder}
use credaryn.Paper.Seal.Verify.{
  cose_options, verify_paper_seal, PaperVerificationOptions, judge_seal, checking,
}
use credaryn.Core.Descriptor.Accepted.{validate_descriptor-IsWellFormed, IsWellFormed}
use credaryn.Paper.Seal.Verified.{verify_paper_seal-IsVerified, IsVerified}
use credaryn.Paper.Cose.Create.{es256_headers}
use credaryn.Paper.Cose.Signed.{valid_result}
use credaryn.Paper.Cbor.{end}
use credaryn.Paper.Seal.Validated.{validate_descriptor-profile_object}

abbrev pub key : SignerKeyInfo
key = record {
  issuer_id = codes "acme";
  key_id = codes "k";
  algorithm = es256;
  public_key = 0x07 ∷ [];
  certificate_chain = none;
  certificate_fingerprint = none;
}

abbrev signature : Bytes
signature = replicate 64 0x01

abbrev pub signer : SignerProvider
signer = record { get_key_info = ok key; sign = λ message. ok signature }

abbrev pub store : TrustStore
store = record {
  resolve = λ id issuer. ok (some key);
  resolve_by_fingerprint = none;
  is_trusted = some (λ candidate. ok true);
  trust_source = none;
}

-- Every text that has the form of a date is one, no text is a URL, and the key 7 accepts every
-- signature.
abbrev pub date_parses : Text → Bool
date_parses s = true

abbrev pub parse_url : Text → Option Url
parse_url s = none

abbrev pub check_signature : Bytes → Bytes → Bytes → Result (Unit {0}) Bool
check_signature public_key message der = ok (starts_with public_key (0x07 ∷ []))

abbrev pub message_of : SealDecodeError → Text
message_of e = codes "unreadable"

abbrev pub descriptor : DocumentDescriptor
descriptor = record {
  issuer_id = codes "acme";
  document_id = codes "d";
  document_type = codes "t";
  issued_at = codes "2026-01-01T00:00:00Z";
  claims = (codes "a", ClaimValue.number (pos 1)) ∷ [];
  status_url = none;
}

abbrev pub input : Unknown
input = Unknown.object (
    property (codes "issuerId") (Unknown.string (codes "acme")) (
      property (codes "documentId") (Unknown.string (codes "d")) (
        property (codes "documentType") (Unknown.string (codes "t")) (
          property (codes "issuedAt") (Unknown.string (codes "2026-01-01T00:00:00Z")) (
            property (codes "claims")
              (Unknown.object (property (codes "a") (Unknown.number (pos 1)) no_more)) no_more)))))

abbrev pub transport : Text
transport =
    codes
      "CRD1:MWGSLKC 47C88CKWY5W50RD01ECF$DAJ0 ND2ECRU02UE1VE8469%67463W5SA66461G7G466467HB3IK%BC27BW50W50W50W50W50W50W50W50W50W50W50W50W50W50W50W50W50W50W50W50W50W50W50W50W50W50W50W50W50W50W50W50"

abbrev pub payload : Bytes
payload =
    0xa7 ∷ 0x01 ∷ 0x01 ∷ 0x02 ∷ 0x64 ∷ 0x61 ∷ 0x63 ∷ 0x6d ∷ 0x65 ∷ 0x03 ∷ 0x61 ∷ 0x6b ∷ 0x04 ∷ 0x61
    ∷ 0x64 ∷ 0x05 ∷ 0x61 ∷ 0x74 ∷ 0x06 ∷ 0x74 ∷ 0x32 ∷ 0x30 ∷ 0x32 ∷ 0x36 ∷ 0x2d ∷ 0x30 ∷ 0x31
    ∷ 0x2d ∷ 0x30 ∷ 0x31 ∷ 0x54 ∷ 0x30 ∷ 0x30 ∷ 0x3a ∷ 0x30 ∷ 0x30 ∷ 0x3a ∷ 0x30 ∷ 0x30 ∷ 0x5a
    ∷ 0x07 ∷ 0xa1 ∷ 0x61 ∷ 0x61 ∷ 0x01 ∷ []

abbrev object : Bytes
object =
    0x84
    ∷ 0x46
    ∷ 0xa2
    ∷ 0x01
    ∷ 0x26
    ∷ 0x04
    ∷ 0x41
    ∷ 0x6b
    ∷ 0xa0
    ∷ 0x58
    ∷ 0x2d
    ∷ (payload ++ 0x58 ∷ 0x40 ∷ signature)

abbrev encode_options : PaperSealEncodeOptions
encode_options = record {
  artifact_digest = none;
  digital_artifact_digest = none;
  certificate_fingerprint = none;
  environment = production;
}

abbrev pub profile : PaperSealPayload
profile = create_paper_seal_payload descriptor (codes "k") encode_options

-- The whole of the validation and of the base 45 code, for a run.
validate_lem : validate_descriptor date_parses parse_url input default_options ≡ ok descriptor
unfolding validator
validate_lem = refl

issue_lem :
    encode_paper_seal date_parses parse_url input (ok key) signer encode_options
    ≡ ok (record { transport = transport; payload = payload; cose = object; key_info = key })
unfolding encoder validator issuing
issue_lem = refl

abbrev seal : DecodedPaperSeal
seal = record {
  transport = transport;
  cose = object;
  payload = payload;
  cose_parts = record {
    protected_headers = es256_headers (codes "k");
    unprotected_headers = end;
    payload = payload;
    signature = signature;
  };
  profile = profile;
}

decode_lem : decode_paper_seal date_parses parse_url (letters transport) ≡ ok seal
unfolding decoder validator checking create_paper_seal_payload
decode_lem = refl

abbrev pub verify_options : PaperVerificationOptions
verify_options = record { trust_store = some store; expected_descriptor = some descriptor }

abbrev pub result : VerificationResult
result =
    judge_seal profile verify_options
      (valid_result (cose_options profile verify_options) (codes "k") key true payload)

verify_lem :
    verify_paper_seal date_parses parse_url check_signature message_of
      (letters transport)
      verify_options
    ≡ ok result
unfolding decoder validator checking create_paper_seal_payload
verify_lem = refl

result_lem : result.verdict ≡ Verdict.valid_trusted
unfolding checking create_paper_seal_payload
result_lem = refl

validate_descriptor-IsWellFormed_example :
    IsWellFormed date_parses parse_url default_options descriptor
validate_descriptor-IsWellFormed_example =
    validate_descriptor-IsWellFormed date_parses parse_url input default_options descriptor
      validate_lem

verify_paper_seal-IsVerified_example :
    IsVerified date_parses parse_url check_signature message_of
      (letters transport)
      verify_options
      result
verify_paper_seal-IsVerified_example =
    verify_paper_seal-IsVerified date_parses parse_url check_signature message_of
      (letters transport) verify_options result verify_lem result_lem

validate_descriptor-profile_object_example :
    validate_descriptor date_parses parse_url (profile_object profile) default_options
    ≡ ok descriptor
unfolding create_paper_seal_payload list_eq
validate_descriptor-profile_object_example =
    validate_descriptor-profile_object date_parses parse_url profile
      (validate_descriptor-IsWellFormed date_parses parse_url input default_options descriptor
        validate_lem)
      (refl, tt)
