-- ===== src/Node/Seal.antt =====
-- credaryn.ts: sealPdf, createPaperSeal and verifyPaperSeal of the class Credaryn.
use credaryn.Base.{
  not, true, refuse_if, some, ◌++◌, map_err, ◌>>◌, err, none, ok, ◌>>=◌, Bool, Result, Option,
}
use credaryn.Node.{
  timestamping_unsupported, placement_unsupported, lookup_key_lifecycle_state, rejected, b_t,
  descriptor_refused, seal_refused, or_store, key_not_active, b_b, PdfLevel, Credaryn,
  CredarynError, PdfSigningRequest, same_key_id,
}
use credaryn.Core.KeyLifecycle.{KeyVersionRecord, get_active}
use credaryn.Core.Descriptor.{Url, Unknown}
use credaryn.Core.Descriptor.Validate.{validate_descriptor}
use credaryn.Paper.Seal.{encode_paper_seal}
use credaryn.Paper.Seal.Verify.{PaperVerificationOptions, verify_paper_seal}
use credaryn.Paper.Seal.Decode.{SealInput, SealDecodeError}
use credaryn.Paper.Cbor.{EncodeError}
use credaryn.Base.Utf8.{utf8_encode}
use credaryn.Core.Signer.{SignerKeyInfo}
use credaryn.Base.Text.{codes, Bytes, Text}
use credaryn.Core.Document.{DocumentDescriptor, KeyLifecycleState, VerificationResult}

pub record SealPdfOptions : Type 0 where
  pub include_paper_seal : Bool
  pub timestamp_authority_url : Option Text

abbrev pub is_signers : SignerKeyInfo → KeyVersionRecord → Bool
is_signers info active = same_key_id active.identity.key_id active.identity.version info.key_id

-- The test of the active key of the signer's issuer.
unfoldable pub check_active :
    SignerKeyInfo → Option KeyVersionRecord → Result CredarynError (Unit {0})
check_active info none = err key_not_active
check_active info (some active) = refuse_if (not (is_signers info active)) key_not_active

unfoldable pub assert_signing_key_is_active : Credaryn → Result CredarynError (Unit {0})
assert_signing_key_is_active credaryn = elim credaryn.key_lifecycle [
  | none ↦ ok tt
  | some registry ↦ do
    info ← map_err (λ _. rejected) credaryn.paper_signer.get_key_info
    check_active info (get_active info.issuer_id registry)
]

unfoldable pub assert_timestamp_capability :
    Credaryn → Option Text → Result CredarynError (Unit {0})
assert_timestamp_capability credaryn none = ok tt
assert_timestamp_capability credaryn (some url) =
    refuse_if (not credaryn.pdf_engine.supports_timestamping) timestamping_unsupported

abbrev pub level_of : Option Text → PdfLevel
level_of none = b_b
level_of (some url) = b_t

module _ (sha256_hex : Bytes → Text) (date_parses : Text → Bool)
    (parse_url : Text → Option Url) where
  abbrev pub request_of : Credaryn → Bytes → Option Text → PdfSigningRequest
  request_of credaryn pdf_bytes url = record {
    signer = credaryn.paper_signer;
    level = level_of url;
    artifact_digest = codes "sha256:" ++ sha256_hex pdf_bytes;
  }

  -- `assertValidDescriptor`, with explicit currencies.
  unfoldable pub assert_valid : Credaryn → Unknown → Result CredarynError DocumentDescriptor
  assert_valid credaryn descriptor = map_err descriptor_refused (
      validate_descriptor date_parses parse_url descriptor
        (record { environment = credaryn.environment; require_explicit_currency = true }))

  unfoldable pub seal_pdf : Credaryn → Bytes → Unknown → SealPdfOptions → Result CredarynError Bytes
  seal_pdf credaryn pdf_bytes descriptor options = do
    valid ← assert_valid credaryn descriptor
    refuse_if options.include_paper_seal placement_unsupported
    assert_timestamp_capability credaryn options.timestamp_authority_url
    assert_signing_key_is_active credaryn
    map_err (λ _. rejected)
        (credaryn.pdf_engine.sign pdf_bytes
          (request_of credaryn pdf_bytes options.timestamp_authority_url))

  unfoldable pub create_paper_seal : Credaryn → Unknown → Result CredarynError Bytes
  create_paper_seal credaryn descriptor = do
    valid ← assert_valid credaryn descriptor
    assert_signing_key_is_active credaryn
    encoded ← map_err seal_refused (
        encode_paper_seal date_parses parse_url descriptor credaryn.paper_signer.get_key_info
          credaryn.paper_signer
          (record {
            artifact_digest = none;
            digital_artifact_digest = none;
            certificate_fingerprint = none;
            environment = credaryn.environment;
          }))
    ok (utf8_encode encoded.transport)

abbrev pub keep_state : VerificationResult → Option KeyLifecycleState → VerificationResult
keep_state result none = result
keep_state result (some state) = record result { key_lifecycle_state = some state }

module _ (date_parses : Text → Bool) (parse_url : Text → Option Url)
    (check_signature : Bytes → Bytes → Bytes → Result (Unit {0}) Bool)
    (message_of : SealDecodeError → Text) where
  unfoldable pub verify_seal :
      Credaryn → Bytes → PaperVerificationOptions → Result EncodeError VerificationResult
  verify_seal credaryn payload options = do
    result ←
        verify_paper_seal date_parses parse_url check_signature message_of (SealInput.raw payload)
          (record options {
            trust_store = some (or_store options.trust_store credaryn.trust_store);
          })
    ok (keep_state result (lookup_key_lifecycle_state credaryn result.issuer_id result.key_id))
