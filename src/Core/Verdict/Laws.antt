-- ===== src/Core/Verdict/Laws.antt =====
-- The verdicts of verdict.ts.
use credaryn.Core.Document.{
  SecurityMode, TrustDecision, ArtifactIntegrity, CryptographicValidity, Verdict,
}
use credaryn.Core.Verdict.{VerificationInput, create_verification_result}
use credaryn.Base.{◌≢◌, arith, ◌⊎◌, some, ◌↔◌, ◌≡◌}

-- A signed PDF counts only if its bytes were found intact; paper has no bytes to check, but no
-- check may have failed.
abbrev pub IsSound : VerificationInput → Type 0
IsSound input =
    (input.artifact_integrity ≡ some ArtifactIntegrity.valid)
    ⊎ ((input.security_mode ≡ SecurityMode.paper_claims_only)
        × (input.artifact_integrity ≢ some ArtifactIntegrity.invalid))

-- The verdict is VALID_TRUSTED exactly when the signature is valid, the key is trusted, and the
-- artifact was found intact or is paper on which no artifact check failed.
pub create_verification_result-valid_trusted_iff :
    (input : VerificationInput)
    → ((create_verification_result input).verdict ≡ Verdict.valid_trusted) ↔ (
        IsSound input
        × (input.cryptographic_validity ≡ CryptographicValidity.valid)
        × (input.trust_decision ≡ TrustDecision.trusted))
unfolding create_verification_result
create_verification_result-valid_trusted_iff input = ((λ h. ground arith), (λ h. ground arith))

-- The verdict is INVALID exactly when the artifact check failed, or the signature is invalid and
-- the artifact was found intact or is paper on which no artifact check failed.
pub create_verification_result-invalid_iff :
    (input : VerificationInput)
    → ((create_verification_result input).verdict ≡ Verdict.invalid) ↔ (
        (input.artifact_integrity ≡ some ArtifactIntegrity.invalid)
        ⊎ (IsSound input × (input.cryptographic_validity ≡ CryptographicValidity.invalid)))
unfolding create_verification_result
create_verification_result-invalid_iff input = ((λ h. ground arith), (λ h. ground arith))
