-- ===== src/Examples/Verdict.antt =====
-- packages/core/src/verdict.ts on a trusted and on a tampered artifact.
use credaryn.Core.Document.{
  SecurityMode, LifecycleStatus, TrustDecision, ArtifactIntegrity, CryptographicValidity, Verdict,
}
use credaryn.Core.Verdict.{create_verification_result, VerificationInput}
use credaryn.Base.{none, ◌⊎◌, some, ◌↔◌, ◌≡◌}
use credaryn.Core.Verdict.Laws.{
  create_verification_result-invalid_iff, create_verification_result-valid_trusted_iff, IsSound,
}
use credaryn.Base.Text.{codes}

abbrev paper : CryptographicValidity → ArtifactIntegrity → VerificationInput
paper validity integrity = record {
  cryptographic_validity = validity;
  trust_decision = TrustDecision.trusted;
  lifecycle_status = LifecycleStatus.unchecked;
  security_mode = SecurityMode.paper_claims_only;
  artifact_integrity = some integrity;
  issuer_id = some (codes "did:web:a.example");
  key_id = none;
  trust_source = none;
  key_lifecycle_state = none;
  document_id = none;
  status_url = none;
  signed_claims = none;
  evidence = none;
}

create_verification_result-valid_trusted_iff_example :
    ((create_verification_result
        (paper CryptographicValidity.valid ArtifactIntegrity.not_applicable)).verdict
      ≡ Verdict.valid_trusted)
    ↔ (IsSound (paper CryptographicValidity.valid ArtifactIntegrity.not_applicable)
        × (CryptographicValidity.valid ≡ CryptographicValidity.valid)
        × (TrustDecision.trusted ≡ TrustDecision.trusted))
create_verification_result-valid_trusted_iff_example =
    create_verification_result-valid_trusted_iff
      (paper CryptographicValidity.valid ArtifactIntegrity.not_applicable)

create_verification_result-invalid_iff_example :
    ((create_verification_result
        (paper CryptographicValidity.valid ArtifactIntegrity.invalid)).verdict
      ≡ Verdict.invalid)
    ↔ ((some ArtifactIntegrity.invalid ≡ some ArtifactIntegrity.invalid)
        ⊎ (IsSound (paper CryptographicValidity.valid ArtifactIntegrity.invalid)
            × (CryptographicValidity.valid ≡ CryptographicValidity.invalid)))
create_verification_result-invalid_iff_example =
    create_verification_result-invalid_iff
      (paper CryptographicValidity.valid ArtifactIntegrity.invalid)
