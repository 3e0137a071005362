-- ===== src/Paper/Seal/Verify.antt =====
-- packages/paper/src/verify.ts: verifyPaperSeal. The texts of the messages of a seal that cannot be
-- read are a parameter; what the function throws is the encoder's error of `verifyCoseSign1`.
use credaryn.Paper.Der.{strip_zeros}
use credaryn.Paper.Der.{der_integer}
use credaryn.Paper.Der.{der_body}
use credaryn.Base.Text.{trim}
use credaryn.Base.Text.{is_blank}
use mathlib.Core.Option
use credaryn.Core.Document.{
  ClaimValue, Claims, DocumentDescriptor, CryptographicValidity, TrustDecision, LifecycleStatus,
  SecurityMode, ArtifactIntegrity, VerificationResult,
}
use credaryn.Core.Verdict.{
  decide_trust, trust_verdict, determine_verdict, VerificationInput, create_verification_result,
}
use credaryn.Base.{
  ◌>>=◌, ok, err, ◌==◌, int_eq, length, [], Result, ◌∷◌, ◌&&◌, none, if◌then◌else◌, not, true, some,
  false, Option, Bool,
}
use credaryn.Paper.Seal.{or_else, PaperSealPayload}
use credaryn.Base.Text.{starts_with, Bytes, list_eq, codes, Text}
use credaryn.Core.Trust.{TrustStore}
use credaryn.Paper.Cose.Verify.{
  is_supported_critical_header, read_key_id, signature_holds, accepted_result, trust_of,
  by_fingerprint, find_trusted_key, verify_with_key, verify_with_store, verify_parts,
  verify_cose_sign1, CoseVerificationResult, CoseVerificationOptions,
}
use credaryn.Core.Descriptor.{get_claim, Url}
use credaryn.Paper.Seal.Decode.{
  profile_object, claim_properties, read_seal_claims, read_optional_string, read_non_empty_string,
  read_seal_string, read_number, get_field, all_allowed, read_profile, decode_profile_payload,
  decode_transport_bytes, decode_paper_seal, SealInput, SealDecodeError,
}
use credaryn.Paper.Cbor.{EncodeError}
use credaryn.Paper.Base45.{index_of, read_character, decode_chunks, decode_base45}
use credaryn.Paper.Cose.{
  get_header, build_signature_input, entries_of, encode_headers, signed_message,
  has_protected_label, set_header, numeric_headers, decode_cose_sign1,
}
use credaryn.Paper.Der.{raw_to_der}
use credaryn.Base.Utf8.{utf8_decode}

pub record PaperVerificationOptions : Type 0 where
  pub trust_store : Option TrustStore
  pub expected_descriptor : Option DocumentDescriptor

unfoldable pub same_text : Option Text → Option Text → Bool
same_text none none = true
same_text (some s) (some t) = list_eq s t
same_text _ _ = false

abbrev same_bool : Bool → Bool → Bool
same_bool true b = b
same_bool false b = not b

unfoldable pub same_claim : Option ClaimValue → Option ClaimValue → Bool
same_claim none none = true
same_claim (some (ClaimValue.string s)) (some (ClaimValue.string t)) = list_eq s t
same_claim (some (ClaimValue.boolean a)) (some (ClaimValue.boolean b)) = same_bool a b
same_claim (some (ClaimValue.number x)) (some (ClaimValue.number y)) = int_eq x y
same_claim _ _ = false

-- `expectedClaimKeys.every(...)`
unfoldable pub every_claim : Claims → Claims → Claims → Bool
every_claim [] expected actual = true
every_claim ((key, claim) ∷ rest) expected actual =
    same_claim (get_claim key actual) (get_claim key expected) && every_claim rest expected actual

unfoldable pub matches_descriptor : PaperSealPayload → DocumentDescriptor → Bool
matches_descriptor profile descriptor =
    list_eq profile.issuer_id descriptor.issuer_id
    && (list_eq profile.document_id descriptor.document_id
        && (list_eq profile.document_type descriptor.document_type
            && (list_eq profile.issued_at descriptor.issued_at
                && (same_text profile.status_url descriptor.status_url
                    && (length descriptor.claims == length profile.claims
                        && every_claim descriptor.claims descriptor.claims profile.claims)))))

abbrev is_valid : CryptographicValidity → Bool
is_valid CryptographicValidity.valid = true
is_valid _ = false

-- The input of `createVerificationResult` that all results of a paper seal share.
abbrev pub paper_input :
    CryptographicValidity
    → TrustDecision
    → Option PaperSealPayload
    → Text
    → Text
    → VerificationInput
paper_input validity decision profile code' message' = record {
  cryptographic_validity = validity;
  trust_decision = decision;
  lifecycle_status = LifecycleStatus.unchecked;
  security_mode = SecurityMode.paper_claims_only;
  artifact_integrity = some ArtifactIntegrity.not_applicable;
  issuer_id = Option.map (λ (p : PaperSealPayload). p.issuer_id) profile;
  key_id = Option.map (λ (p : PaperSealPayload). p.key_id) profile;
  trust_source = none;
  key_lifecycle_state = none;
  document_id = none;
  status_url = none;
  signed_claims = none;
  evidence = some (record { code = code'; message = message' } ∷ []);
}

-- `createPaperResult` with a profile.
unfoldable pub create_paper_result : VerificationInput → PaperSealPayload → VerificationResult
create_paper_result input profile = create_verification_result (record input {
  document_id = some profile.document_id;
  status_url = or_else profile.status_url input.status_url;
})

abbrev pub refused_seal : PaperSealPayload → Text → Text → VerificationResult
refused_seal profile code' message' =
    create_paper_result
      (paper_input CryptographicValidity.invalid TrustDecision.missing (some profile) code'
        message')
      profile

abbrev validity_code : CryptographicValidity → Text
validity_code CryptographicValidity.valid = codes "PAPER_VALID"
validity_code CryptographicValidity.invalid = codes "PAPER_INVALID"
validity_code CryptographicValidity.unverifiable = codes "PAPER_UNVERIFIABLE"

abbrev validity_message : CryptographicValidity → Text
validity_message CryptographicValidity.valid = codes "Paper Seal cryptographic validity is valid"
validity_message CryptographicValidity.invalid =
    codes "Paper Seal cryptographic validity is invalid"
validity_message CryptographicValidity.unverifiable =
    codes "Paper Seal cryptographic validity is unverifiable"

abbrev pub is_unexpected : Option DocumentDescriptor → PaperSealPayload → Bool
is_unexpected none profile = false
is_unexpected (some descriptor) profile = not (matches_descriptor profile descriptor)

abbrev has_fingerprint : Option Text → Bool
has_fingerprint none = false
has_fingerprint (some s) = true

-- The fingerprint of the seal is not the one of the key.
abbrev pub has_other_fingerprint : PaperSealPayload → CoseVerificationResult → Bool
has_other_fingerprint profile cose =
    is_valid cose.cryptographic_validity
    && (has_fingerprint profile.certificate_fingerprint
        && not (same_text cose.certificate_fingerprint profile.certificate_fingerprint))

abbrev source_of : Option TrustStore → Option Text
source_of none = none
source_of (some store) = store.trust_source

-- The last two returns of `verifyPaperSeal`.
unfoldable pub checked_result :
    PaperSealPayload → PaperVerificationOptions → CoseVerificationResult → VerificationResult
checked_result profile options cose =
    create_paper_result
      (record (paper_input cose.cryptographic_validity cose.trust_decision (some profile)
        (validity_code cose.cryptographic_validity)
        (validity_message cose.cryptographic_validity)) {
          signed_claims =
              if is_valid cose.cryptographic_validity then some profile.claims else none;
          trust_source = source_of options.trust_store;
        })
      profile

-- `verifyPaperSeal` behind the check of the object.
unfoldable pub judge_seal :
    PaperSealPayload → PaperVerificationOptions → CoseVerificationResult → VerificationResult
judge_seal profile options cose =
    if not (same_text cose.key_id (some profile.key_id))
    then refused_seal profile (codes "PAPER_KEY_ID_MISMATCH")
        (codes "COSE key ID does not match the signed payload")
    else if is_unexpected options.expected_descriptor profile
    then refused_seal profile (codes "PAPER_DOCUMENT_MISMATCH")
        (codes "Paper Seal claims do not match the expected document")
    else if has_other_fingerprint profile cose
    then refused_seal profile (codes "PAPER_CERTIFICATE_FINGERPRINT_MISMATCH")
        (codes "Paper Seal certificate fingerprint does not match the trusted signing key")
    else checked_result profile options cose

abbrev pub cose_options : PaperSealPayload → PaperVerificationOptions → CoseVerificationOptions
cose_options profile options = record {
  issuer_id = profile.issuer_id;
  trust_store = options.trust_store;
  certificate_fingerprint = profile.certificate_fingerprint;
}

module _ (date_parses : Text → Bool) (parse_url : Text → Option Url)
    (check_signature : Bytes → Bytes → Bytes → Result (Unit {0}) Bool)
    (message_of : SealDecodeError → Text) where
  unfoldable pub verify_paper_seal :
      SealInput → PaperVerificationOptions → Result EncodeError VerificationResult
  verify_paper_seal input options = elim (decode_paper_seal date_parses parse_url input) [
    | err e ↦ ok (
        create_verification_result (
          paper_input CryptographicValidity.invalid TrustDecision.missing none
            (codes "PAPER_INPUT_INVALID") (message_of e)))
    | ok decoded ↦ do
      cose ← verify_cose_sign1 check_signature decoded.cose (cose_options decoded.profile options)
      ok (judge_seal decoded.profile options cose)
  ]

-- The reading and the verification of a seal beside the validation, for a run of it.
unfoldable pub checking : Unit {0}
unfolding decode_paper_seal decode_transport_bytes decode_profile_payload read_profile all_allowed
    get_field read_number read_seal_string read_non_empty_string read_optional_string
    read_seal_claims claim_properties profile_object decode_base45 decode_chunks read_character
    index_of decode_cose_sign1 numeric_headers set_header has_protected_label verify_paper_seal
    judge_seal checked_result create_paper_result matches_descriptor every_claim same_text
    same_claim get_claim create_verification_result verify_cose_sign1 verify_parts verify_with_store
    verify_with_key find_trusted_key by_fingerprint trust_of accepted_result signature_holds
    raw_to_der read_key_id is_supported_critical_header signed_message encode_headers entries_of
    build_signature_input get_header int_eq determine_verdict trust_verdict decide_trust starts_with
    is_blank trim list_eq der_body der_integer strip_zeros utf8_decode
checking = tt
