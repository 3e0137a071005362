-- ===== src/Core/Verdict.antt =====
-- packages/core/src/policy.ts and verdict.ts: the trust decision and the verdict.
pub mod Laws
use credaryn.Core.Document.{
  Claims, KeyLifecycleState, VerificationEvidence, LifecycleStatus, ArtifactIntegrity,
  TrustDecision, CryptographicValidity, SecurityMode, VerificationResult, Verdict,
}
use credaryn.Base.{none, [], not, some, false, ◌&&◌, if◌then◌else◌, true, List, Bool, Option}
use credaryn.Base.Text.{Text}

pub record TrustResolution : Type 0 where
  pub trust_store_available : Bool
  pub matching_key : Bool

unfoldable pub decide_trust : TrustResolution → TrustDecision
decide_trust resolution =
    if not resolution.trust_store_available
    then TrustDecision.missing
    else if resolution.matching_key
    then TrustDecision.trusted
    else TrustDecision.untrusted

pub record VerificationInput : Type 0 where
  pub cryptographic_validity : CryptographicValidity
  pub trust_decision : TrustDecision
  pub lifecycle_status : LifecycleStatus
  pub security_mode : SecurityMode
  pub artifact_integrity : Option ArtifactIntegrity
  pub issuer_id : Option Text
  pub key_id : Option Text
  pub trust_source : Option Text
  pub key_lifecycle_state : Option KeyLifecycleState
  pub document_id : Option Text
  pub status_url : Option Text
  pub signed_claims : Option Claims
  pub evidence : Option (List VerificationEvidence)

-- `artifactIntegrity === "INVALID"`, and the other comparisons with a literal.
abbrev pub is_invalid : Option ArtifactIntegrity → Bool
is_invalid (some ArtifactIntegrity.invalid) = true
is_invalid _ = false

abbrev pub is_intact : Option ArtifactIntegrity → Bool
is_intact (some ArtifactIntegrity.valid) = true
is_intact _ = false

abbrev pub is_digital : SecurityMode → Bool
is_digital SecurityMode.digital_artifact_signed = true
is_digital SecurityMode.paper_claims_only = false

abbrev pub is_trusted : TrustDecision → Bool
is_trusted TrustDecision.trusted = true
is_trusted _ = false

abbrev pub is_untrusted : TrustDecision → Bool
is_untrusted TrustDecision.untrusted = true
is_untrusted _ = false

abbrev pub is_missing : TrustDecision → Bool
is_missing TrustDecision.missing = true
is_missing _ = false

-- The last return of `determineVerdict`.
unfoldable pub trust_verdict : TrustDecision → Verdict
unfolding decide_trust
trust_verdict decision =
    if is_trusted (
      decide_trust (record {
        trust_store_available = not (is_missing decision);
        matching_key = is_trusted decision;
      }))
    then Verdict.valid_trusted
    else if is_untrusted decision
    then Verdict.valid_untrusted
    else Verdict.unverifiable

unfoldable pub determine_verdict :
    CryptographicValidity → TrustDecision → Option ArtifactIntegrity → Verdict
unfolding trust_verdict
determine_verdict validity decision integrity =
    if is_invalid integrity then Verdict.invalid else elim validity [
      | CryptographicValidity.invalid ↦ Verdict.invalid
      | CryptographicValidity.unverifiable ↦ Verdict.unverifiable
      | CryptographicValidity.valid ↦ trust_verdict decision
    ]

abbrev evidence_or_none : Option (List VerificationEvidence) → List VerificationEvidence
evidence_or_none none = []
evidence_or_none (some evidence) = evidence

unfoldable pub create_verification_result : VerificationInput → VerificationResult
unfolding determine_verdict
create_verification_result input = record {
  verdict =
      if is_invalid input.artifact_integrity
      then Verdict.invalid
      else if is_digital input.security_mode && not (is_intact input.artifact_integrity)
      then Verdict.unverifiable
      else determine_verdict input.cryptographic_validity input.trust_decision
          input.artifact_integrity;
  cryptographic_validity = input.cryptographic_validity;
  trust_decision = input.trust_decision;
  lifecycle_status = input.lifecycle_status;
  issuer_id = input.issuer_id;
  key_id = input.key_id;
  trust_source = input.trust_source;
  security_mode = input.security_mode;
  artifact_integrity = input.artifact_integrity;
  key_lifecycle_state = input.key_lifecycle_state;
  document_id = input.document_id;
  status_url = input.status_url;
  signed_claims = input.signed_claims;
  evidence = evidence_or_none input.evidence;
}
