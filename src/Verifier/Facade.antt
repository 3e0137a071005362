-- ===== src/Verifier/Facade.antt =====
-- packages/verifier/src: createVerifier of verify-input.ts over verify-paper.ts and verify-pdf.ts. The
-- readers of images and the check of signatures are parameters.
pub mod Results
pub mod Accepted
use credaryn.Base.{
  some, err, ◌>>◌, length, map_err, ltb, ok, Option, none, refuse_if, ◌>>=◌, Bool, Result, ◌∷◌, [],
}
use credaryn.Node.{Credaryn, CredarynError, PdfSignatureEngine}
use credaryn.Core.Document.{
  ArtifactIntegrity, SecurityMode, LifecycleStatus, TrustDecision, CryptographicValidity,
  VerificationResult, DocumentDescriptor,
}
use credaryn.Base.Text.{trim, codes, Bytes, Text}
use credaryn.Core.Trust.{TrustStore, SignerProvider}
use credaryn.Verifier.Input.{
  paper_image, invalid_text, paper_text, pdf, input_too_large, DetectedInputKind, detect_input,
  maximum_of_type, InputError,
}
use credaryn.Core.Descriptor.{Url, production}
use credaryn.Paper.Qr.{qr_message, decode_paper_seal_qr, QrLibraries, PaperQrError}
use credaryn.Paper.Cbor.{EncodeError}
use credaryn.Core.Verdict.{create_verification_result, VerificationInput}
use credaryn.Verifier.Lookup.{apply_status_resolver, StatusResolver}
use credaryn.Verifier.Normalize.{normalize_verification_result}
use credaryn.Paper.Seal.Decode.{SealDecodeError}
use credaryn.Node.Seal.{verify_seal}
use credaryn.Base.Utf8.{utf8_encode, utf8_decode}

pub record Submission : Type 0 where
  pub content : Bytes
  pub content_type : Option Text
  pub expected_descriptor : Option DocumentDescriptor

pub record VerifierDependencies : Type 0 where
  pub pdf_engine : PdfSignatureEngine
  pub paper_signer : SignerProvider
  pub trust_store : TrustStore
  pub status_resolver : Option StatusResolver

-- What a verification throws.
pub data VerifierError : Type 0 where
  input_refused : InputError → VerifierError
  pdf_refused : CredarynError → VerifierError
  paper_refused : EncodeError → VerifierError

abbrev pub sdk_of : VerifierDependencies → Credaryn
sdk_of dependencies = record {
  pdf_engine = dependencies.pdf_engine;
  paper_signer = dependencies.paper_signer;
  trust_store = dependencies.trust_store;
  environment = production;
  key_lifecycle = none;
}

unfoldable pub verify_pdf :
    Bytes → Credaryn → Option TrustStore → Result VerifierError VerificationResult
verify_pdf input sdk own = do
  result ← map_err pdf_refused (credaryn.Node.verify_pdf sdk input own)
  ok (normalize_verification_result result)

abbrev pub refused_image : PaperQrError → VerificationInput
refused_image e = record {
  cryptographic_validity = CryptographicValidity.invalid;
  trust_decision = TrustDecision.missing;
  lifecycle_status = LifecycleStatus.unchecked;
  security_mode = SecurityMode.paper_claims_only;
  artifact_integrity = some ArtifactIntegrity.not_applicable;
  issuer_id = none;
  key_id = none;
  trust_source = none;
  key_lifecycle_state = none;
  document_id = none;
  status_url = none;
  signed_claims = none;
  evidence = some ((record { code = codes "PAPER_IMAGE_INVALID"; message = qr_message e }) ∷ []);
}

unfoldable pub assert_size : Bytes → Text → Result VerifierError (Unit {0})
assert_size input content_type =
    refuse_if (ltb (maximum_of_type content_type) (length input)) (input_refused input_too_large)

unfoldable pub with_status_of :
    VerifierDependencies
    → Result VerifierError VerificationResult
    → Result VerifierError VerificationResult
with_status_of dependencies verified = do
  result ← verified
  ok (apply_status_resolver result dependencies.status_resolver)

module _ (date_parses : Text → Bool) (parse_url : Text → Option Url)
    (check_signature : Bytes → Bytes → Bytes → Result (Unit {0}) Bool)
    (message_of : SealDecodeError → Text) (libraries : QrLibraries) where
  unfoldable pub verify_paper_text :
      Text
      → Credaryn
      → Option TrustStore
      → Option DocumentDescriptor
      → Result VerifierError VerificationResult
  verify_paper_text input sdk own expected = do
    result ← map_err paper_refused (
        verify_seal date_parses parse_url check_signature message_of sdk (utf8_encode input)
          (record { trust_store = own; expected_descriptor = expected }))
    ok (normalize_verification_result result)

  unfoldable pub verify_paper_image :
      Bytes
      → Credaryn
      → Option TrustStore
      → Option DocumentDescriptor
      → Result VerifierError VerificationResult
  verify_paper_image input sdk own expected = elim (decode_paper_seal_qr libraries input) [
    | err e ↦ ok (normalize_verification_result (create_verification_result (refused_image e)))
    | ok transport ↦ verify_paper_text transport sdk own expected
  ]

  unfoldable pub verify_text_bytes :
      Bytes → Credaryn → Option DocumentDescriptor → Result VerifierError VerificationResult
  verify_text_bytes input sdk expected = elim (utf8_decode input) [
    | none ↦ err (input_refused invalid_text)
    | some s ↦ verify_paper_text (trim s) sdk none expected
  ]

  -- The three branches of `verifyInput`.
  unfoldable pub verify_kind :
      DetectedInputKind → Submission → Credaryn → Result VerifierError VerificationResult
  verify_kind pdf input sdk = verify_pdf input.content sdk none
  verify_kind paper_text input sdk = verify_text_bytes input.content sdk input.expected_descriptor
  verify_kind paper_image input sdk =
      verify_paper_image input.content sdk none input.expected_descriptor

  unfoldable pub verify_input :
      VerifierDependencies → Submission → Result VerifierError VerificationResult
  verify_input dependencies input = do
    kind ← map_err input_refused (detect_input input.content input.content_type)
    with_status_of dependencies (verify_kind kind input (sdk_of dependencies))

  unfoldable pub verify_sized_pdf :
      VerifierDependencies → Bytes → Option TrustStore → Result VerifierError VerificationResult
  verify_sized_pdf dependencies input own = do
    assert_size input (codes "application/pdf")
    with_status_of dependencies (verify_pdf input (sdk_of dependencies) own)

  unfoldable pub verify_sized_text :
      VerifierDependencies
      → Text
      → Option TrustStore
      → Option DocumentDescriptor
      → Result VerifierError VerificationResult
  verify_sized_text dependencies input own expected = do
    assert_size (utf8_encode input) (codes "text/vnd.credaryn.crd1")
    with_status_of dependencies (verify_paper_text input (sdk_of dependencies) own expected)

  unfoldable pub verify_sized_image :
      VerifierDependencies
      → Bytes
      → Option TrustStore
      → Option DocumentDescriptor
      → Result VerifierError VerificationResult
  verify_sized_image dependencies input own expected = do
    assert_size input (codes "image/png")
    with_status_of dependencies (verify_paper_image input (sdk_of dependencies) own expected)
