-- ===== src/Core/Document.antt =====
-- packages/core/src/document.ts and result.ts: the shapes that the other modules exchange.
use credaryn.Base.Text.{Text}
use credaryn.Base.{ℤ, Bool, List, Option}

-- `number` is an integral number; the rest of the JavaScript values are no claims.
pub data ClaimValue : Type 0 where
  string : Text → ClaimValue
  boolean : Bool → ClaimValue
  number : ℤ → ClaimValue

-- The own properties of an object, in their order.
abbrev pub Claims : Type 0
Claims = List (Text × ClaimValue)

pub record DocumentDescriptor : Type 0 where
  pub issuer_id : Text
  pub document_id : Text
  pub document_type : Text
  pub issued_at : Text
  pub claims : Claims
  pub status_url : Option Text

pub data CryptographicValidity : Type 0 where
  valid invalid unverifiable : CryptographicValidity

pub data Verdict : Type 0 where
  valid_trusted valid_untrusted invalid unverifiable : Verdict

pub data LifecycleStatus : Type 0 where
  active revoked cancelled superseded expired unchecked : LifecycleStatus

pub data SecurityMode : Type 0 where
  digital_artifact_signed paper_claims_only : SecurityMode

pub data ArtifactIntegrity : Type 0 where
  valid invalid not_applicable unknown : ArtifactIntegrity

pub data KeyLifecycleState : Type 0 where
  active retired revoked compromised : KeyLifecycleState

pub data TrustDecision : Type 0 where
  trusted untrusted missing : TrustDecision

pub record VerificationEvidence : Type 0 where
  pub code : Text
  pub message : Text

pub record VerificationResult : Type 0 where
  pub verdict : Verdict
  pub cryptographic_validity : CryptographicValidity
  pub trust_decision : TrustDecision
  pub lifecycle_status : LifecycleStatus
  pub issuer_id : Option Text
  pub key_id : Option Text
  pub trust_source : Option Text
  pub security_mode : SecurityMode
  pub artifact_integrity : Option ArtifactIntegrity
  pub key_lifecycle_state : Option KeyLifecycleState
  pub document_id : Option Text
  pub status_url : Option Text
  pub signed_claims : Option Claims
  pub evidence : List VerificationEvidence
