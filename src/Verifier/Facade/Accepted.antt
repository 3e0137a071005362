-- ===== src/Verifier/Facade/Accepted.antt =====
-- verify-input.ts: what verifyInput accepts.
use credaryn.Base.{
  sym, Result-cases, Bool, ◌∙◌, inr, ap, ok_injective, map_err-eq-ok, ◌⊎◌, inl, Option-cases,
  map_err, >>=-eq-ok, arith, refl, ok, some, Result, none, Option, ◌≡◌,
}
use credaryn.Verifier.Facade.{
  paper_refused, sdk_of, input_refused, verify_paper_text, verify_text_bytes, verify_paper_image,
  verify_kind, verify_input, VerifierDependencies, Submission,
}
use credaryn.Paper.Qr.{decode_paper_seal_qr, QrLibraries}
use credaryn.Node.{Credaryn}
use credaryn.Verifier.Normalize.{sorted, normalize_verification_result}
use credaryn.Base.Text.{trim, Text, Bytes}
use credaryn.Verifier.Input.{DetectedInputKind, pdf, paper_image, paper_text, detect_input}
use credaryn.Core.Document.{DocumentDescriptor, Verdict, VerificationResult}
use credaryn.Base.Utf8.{utf8_encode, utf8_decode}
use credaryn.Node.Verified.{IsTrustedPdf}
use credaryn.Core.Descriptor.{Url}
use credaryn.Paper.Seal.Decode.{SealInput, SealDecodeError}
use credaryn.Node.Seal.{verify_seal}
use credaryn.Paper.Seal.Verified.{verify_paper_seal-IsVerified, IsVerified}
use credaryn.Paper.Seal.Verify.{verify_paper_seal}
use credaryn.Verifier.Facade.Results.{
  lookup-without_registry, refused_image-not_trusted, verify_pdf-IsTrustedPdf, status-verdict,
}

-- The text of the seal that a submission holds: its own one, or the one of its image.
abbrev pub HoldsSeal : QrLibraries → Submission → Text → Type 0
HoldsSeal libraries input sealed =
    ((detect_input input.content input.content_type ≡ ok paper_text)
      × ((text : Text) × (utf8_decode input.content ≡ some text) × (sealed ≡ trim text)))
    ⊎ ((detect_input input.content input.content_type ≡ ok paper_image)
        × (decode_paper_seal_qr libraries input.content ≡ ok sealed))

module _ (date_parses : Text → Bool) (parse_url : Text → Option Url)
    (check_signature : Bytes → Bytes → Bytes → Result (Unit {0}) Bool)
    (message_of : SealDecodeError → Text) (libraries : QrLibraries) where
  -- The seal is verified with the trust store, and its claims are reported in order.
  abbrev pub IsTrustedSeal :
      Credaryn → Option DocumentDescriptor → Text → VerificationResult → Type 0
  IsTrustedSeal sdk expected sealed r =
      (before : VerificationResult) × IsVerified date_parses parse_url check_signature message_of
        (SealInput.raw (utf8_encode sealed))
        (record { trust_store = some sdk.trust_store; expected_descriptor = expected }) before
      × (r.signed_claims ≡ sorted before.signed_claims)

  verify_seal-IsVerified :
      (payload : Bytes) (sdk : Credaryn) (expected : Option DocumentDescriptor)
      (r : VerificationResult)
      → sdk.key_lifecycle ≡ none
      → verify_seal date_parses parse_url check_signature message_of sdk payload
          (record { trust_store = none; expected_descriptor = expected })
        ≡ ok r
      → r.verdict ≡ Verdict.valid_trusted
      → IsVerified date_parses parse_url check_signature message_of
          (SealInput.raw payload)
          (record { trust_store = some sdk.trust_store; expected_descriptor = expected })
          r
  unfolding verify_seal
  verify_seal-IsVerified payload sdk expected r n h v =
      let (before, b, h1) =
        >>=-eq-ok
          (verify_paper_seal date_parses parse_url check_signature message_of
            (SealInput.raw payload) _)
          _ h in
      let same : before ≡ r =
        ok_injective _ _
          (rw (lookup-without_registry sdk before.issuer_id before.key_id n) at h1) in
      verify_paper_seal-IsVerified date_parses parse_url check_signature message_of
        (SealInput.raw payload) _ r (b ∙ ap ok same) v

  verify_paper_text-IsTrustedSeal :
      (sealed : Text) (sdk : Credaryn) (expected : Option DocumentDescriptor)
      (r : VerificationResult)
      → sdk.key_lifecycle ≡ none
      → verify_paper_text date_parses parse_url check_signature message_of libraries sealed sdk none
          expected
        ≡ ok r
      → r.verdict ≡ Verdict.valid_trusted
      → IsTrustedSeal sdk expected sealed r
  unfolding verify_paper_text normalize_verification_result
  verify_paper_text-IsTrustedSeal sealed sdk expected r n h v =
      let (before, b, h1) =
        >>=-eq-ok
          (map_err paper_refused (
            verify_seal date_parses parse_url check_signature message_of sdk (utf8_encode sealed)
              _))
          _ h in
      let same = ok_injective _ _ h1 in
      (
        before,
        verify_seal-IsVerified (utf8_encode sealed) sdk expected before n
            (map_err-eq-ok paper_refused _ b) (ap (λ (x : VerificationResult). x.verdict) same ∙ v),
        sym (ap (λ (x : VerificationResult). x.signed_claims) same),
      )

  verify_text_bytes-IsTrustedSeal :
      (input : Bytes) (sdk : Credaryn) (expected : Option DocumentDescriptor)
      (r : VerificationResult)
      → sdk.key_lifecycle ≡ none
      → verify_text_bytes date_parses parse_url check_signature message_of libraries input sdk
          expected
        ≡ ok r
      → r.verdict ≡ Verdict.valid_trusted
      → (text : Text) × (utf8_decode input ≡ some text) × IsTrustedSeal sdk expected (trim text) r
  unfolding verify_text_bytes
  verify_text_bytes-IsTrustedSeal input sdk expected r n h v =
      elim (Option-cases (utf8_decode input)) [
        | inl u ↦ absurd (ground arith)
        | inr (text, u) ↦ (
          text,
          u,
          verify_paper_text-IsTrustedSeal (trim text) sdk expected r n
              (rw (verify_text_bytes, u) at h) v,
        )
      ]

  verify_paper_image-IsTrustedSeal :
      (input : Bytes) (sdk : Credaryn) (expected : Option DocumentDescriptor)
      (r : VerificationResult)
      → sdk.key_lifecycle ≡ none
      → verify_paper_image date_parses parse_url check_signature message_of libraries input sdk none
          expected
        ≡ ok r
      → r.verdict ≡ Verdict.valid_trusted
      → (sealed : Text) × (decode_paper_seal_qr libraries input ≡ ok sealed)
        × IsTrustedSeal sdk expected sealed r
  unfolding verify_paper_image
  verify_paper_image-IsTrustedSeal input sdk expected r n h v =
      elim (Result-cases (decode_paper_seal_qr libraries input)) [
        | inr (e, d) ↦ absurd (
            refused_image-not_trusted e (
              ap (λ (x : VerificationResult). x.verdict)
                (ok_injective _ _ (rw (verify_paper_image, d) at h))
              ∙ v))
        | inl (sealed, d) ↦ (
          sealed,
          d,
          verify_paper_text-IsTrustedSeal sealed sdk expected r n (rw (verify_paper_image, d) at h)
              v,
        )
      ]

  -- The PDF or the seal of the submission is trusted.
  abbrev pub IsTrusted : VerifierDependencies → Submission → VerificationResult → Type 0
  IsTrusted dependencies input r =
      ((detect_input input.content input.content_type ≡ ok pdf)
        × IsTrustedPdf (sdk_of dependencies) input.content none)
      ⊎ ((sealed : Text) × HoldsSeal libraries input sealed
          × IsTrustedSeal (sdk_of dependencies) input.expected_descriptor sealed r)

  kind-IsTrusted :
      (dependencies : VerifierDependencies) (input : Submission) (kind : DetectedInputKind)
      (r : VerificationResult)
      → detect_input input.content input.content_type ≡ ok kind
      → verify_kind date_parses parse_url check_signature message_of libraries kind input
          (sdk_of dependencies)
        ≡ ok r
      → r.verdict ≡ Verdict.valid_trusted
      → IsTrusted dependencies input r
  unfolding verify_kind
  kind-IsTrusted dependencies input pdf r k h v =
      inl (k, verify_pdf-IsTrustedPdf input.content (sdk_of dependencies) none r h v)
  kind-IsTrusted dependencies input paper_text r k h v =
      let (text, u, trusted) =
        verify_text_bytes-IsTrustedSeal input.content (sdk_of dependencies)
          input.expected_descriptor r refl h v in
      inr (trim text, inl (k, (text, u, refl)), trusted)
  kind-IsTrusted dependencies input paper_image r k h v =
      let (sealed, d, trusted) =
        verify_paper_image-IsTrustedSeal input.content (sdk_of dependencies)
          input.expected_descriptor r refl h v in
      inr (sealed, inr (k, d), trusted)

  -- If the verification of a submission returns VALID_TRUSTED, whatever the lookup of the status
  -- answers, then it is a PDF that the SDK trusts, or it holds the text of a seal, as its trimmed
  -- text or in its image, that is verified with the trust store against the expected document, and
  -- whose claims the result reports as the normalization sorts them.
  pub verify_input-IsTrusted :
      (dependencies : VerifierDependencies) (input : Submission) (r : VerificationResult)
      → verify_input date_parses parse_url check_signature message_of libraries dependencies input
        ≡ ok r
      → r.verdict ≡ Verdict.valid_trusted
      → IsTrusted dependencies input r
  unfolding verify_input
  verify_input-IsTrusted dependencies input r h v =
      let (kind, k, h1) =
        >>=-eq-ok (map_err input_refused (detect_input input.content input.content_type)) _ h in
      let (before, b, same) = status-verdict dependencies _ r h1 in
      let trusted =
        kind-IsTrusted dependencies input kind before (map_err-eq-ok input_refused _ k) b
          (same.0 ∙ v) in
      elim trusted [
        | inl p ↦ inl p
        | inr (sealed, holds, (found, verified, claims)) ↦
            inr (sealed, holds, (found, verified, sym same.3 ∙ claims))
      ]
