-- ===== src/Verifier/Facade/Results.antt =====
-- verify-input.ts: the result of a PDF, of an unreadable image, and after the lookup of a status.
use credaryn.Base.{
  ◌∙◌, inr, ap, ok_injective, map_err-eq-ok, subst, inl, Option-cases, map_err, >>=-eq-ok, arith,
  refl, ok, some, ◌≢◌, Result, none, Option, ◌≡◌,
}
use credaryn.Verifier.Facade.{
  pdf_refused, VerifierError, refused_image, VerifierDependencies, with_status_of, verify_pdf,
}
use credaryn.Paper.Qr.{PaperQrError}
use credaryn.Node.{Credaryn, lookup_key_lifecycle_state}
use credaryn.Verifier.Normalize.{normalize_verification_result}
use credaryn.Verifier.Lookup.{
  apply_status_resolver-IsReported, SameJudgement, apply_status_resolver,
}
use credaryn.Base.Text.{Text, Bytes}
use credaryn.Core.Verdict.{create_verification_result}
use credaryn.Core.Trust.{TrustStore}
use credaryn.Core.Document.{Verdict, VerificationResult}
use credaryn.Node.Verified.{verify_pdf-valid_trusted_iff, IsTrustedPdf}

-- What the judgement of a result says is kept by the lookup of a status.
pub status-verdict :
    (dependencies : VerifierDependencies) (verified : Result VerifierError VerificationResult)
    (r : VerificationResult)
    → with_status_of dependencies verified ≡ ok r
    → (before : VerificationResult) × (verified ≡ ok before) × SameJudgement before r
unfolding with_status_of apply_status_resolver
status-verdict dependencies verified r h =
    let (before, v, h1) = >>=-eq-ok verified _ h in
    (
      before,
      v,
      elim (Option-cases dependencies.status_resolver) [
        | inl n ↦
            subst (SameJudgement before) (ok_injective _ _ h1)
              (rw (apply_status_resolver, n) (refl, refl, refl, refl, refl))
        | inr (resolver, s) ↦
            subst (SameJudgement before) (ok_injective _ _ h1)
              (rw s ((apply_status_resolver-IsReported before resolver).0))
      ],
    )

pub lookup-without_registry :
    (credaryn : Credaryn) (issuer_id key_id : Option Text)
    → credaryn.key_lifecycle ≡ none
    → lookup_key_lifecycle_state credaryn issuer_id key_id ≡ none
unfolding lookup_key_lifecycle_state
lookup-without_registry credaryn none key_id n = refl
lookup-without_registry credaryn (some issuer_id) none n = refl
lookup-without_registry credaryn (some issuer_id) (some key_id) n =
    rw (lookup_key_lifecycle_state, n) refl

pub verify_pdf-IsTrustedPdf :
    (input : Bytes) (sdk : Credaryn) (own : Option TrustStore) (r : VerificationResult)
    → verify_pdf input sdk own ≡ ok r
    → r.verdict ≡ Verdict.valid_trusted
    → IsTrustedPdf sdk input own
unfolding verify_pdf normalize_verification_result
verify_pdf-IsTrustedPdf input sdk own r h v =
    let (answer, a, h1) =
      >>=-eq-ok (map_err pdf_refused (credaryn.Node.verify_pdf sdk input own)) _ h in
    (verify_pdf-valid_trusted_iff sdk input own).0 (
      answer,
      map_err-eq-ok pdf_refused _ a,
      ap (λ (x : VerificationResult). x.verdict) (ok_injective _ _ h1) ∙ v,
    )

pub refused_image-not_trusted :
    (e : PaperQrError)
    → (normalize_verification_result (create_verification_result (refused_image e))).verdict
      ≢ Verdict.valid_trusted
unfolding normalize_verification_result create_verification_result
refused_image-not_trusted e h = ground arith
