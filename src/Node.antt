-- ===== src/Node.antt =====
-- packages/node/src/credaryn.ts: the class Credaryn. The PDF engine, the signer and the trust store are
-- fields; so is the registry of keys, in the state it has at the call. SHA-256, `Date.parse`, the `URL`
-- parser and the signature check are parameters.
pub mod Seal
pub mod Sealed
pub mod Verified
use credaryn.Base.{
  ◌||◌, true, err, ◌++◌, map_err, none, List, ok, false, if◌then◌else◌, ◌>>=◌, Option, Bool, Result,
  some, ◌∷◌, [],
}
use credaryn.Core.Document.{
  CryptographicValidity, TrustDecision, LifecycleStatus, SecurityMode, ArtifactIntegrity,
  KeyLifecycleState, VerificationResult,
}
use credaryn.Core.KeyLifecycle.{
  Registry, KeyVersionRecord, KeyVersionStatus, get_active, list_records, versioned_key_id,
}
use credaryn.Core.Verdict.{VerificationInput, create_verification_result, decide_trust}
use credaryn.Core.Descriptor.{Url, DescriptorEnvironment, Issues, Unknown}
use credaryn.Core.Trust.{TrustStore, SignerProvider}
use credaryn.Paper.Seal.{SealEncodeError, encode_paper_seal}
use credaryn.Paper.Seal.Verify.{PaperVerificationOptions, verify_paper_seal}
use credaryn.Paper.Seal.Decode.{SealInput, SealDecodeError}
use credaryn.Paper.Cbor.{EncodeError}
use credaryn.Base.Utf8.{utf8_encode}
use credaryn.Base.Text.{list_eq, codes, Text, Bytes}
use credaryn.Core.Signer.{SignerKeyInfo}

pub record PdfVerificationResult : Type 0 where
  pub cryptographic_validity : CryptographicValidity
  pub artifact_integrity : ArtifactIntegrity
  pub key_id : Option Text
  pub issuer_id : Option Text

pub data PdfLevel : Type 0 where
  b_b b_t : PdfLevel

pub record PdfSigningRequest : Type 0 where
  pub signer : SignerProvider
  pub level : PdfLevel
  pub artifact_digest : Text

-- `supports_timestamping` is whether it is true.
pub record PdfSignatureEngine : Type 0 where
  pub supports_timestamping : Bool
  pub sign : Bytes → PdfSigningRequest → Result (Unit {0}) Bytes
  pub verify : Bytes → TrustStore → Result (Unit {0}) PdfVerificationResult

pub record Credaryn : Type 0 where
  pub pdf_engine : PdfSignatureEngine
  pub paper_signer : SignerProvider
  pub trust_store : TrustStore
  pub environment : DescriptorEnvironment
  pub key_lifecycle : Option Registry

-- What its methods throw; `rejected` is a promise of the engine or the signer.
pub data CredarynError : Type 0 where
  descriptor_refused : Issues → CredarynError
  placement_unsupported timestamping_unsupported key_not_active rejected : CredarynError
  seal_refused : SealEncodeError → CredarynError

unfoldable pub same_key_id : Text → Text → Text → Bool
same_key_id identity_key_id version key_id =
    list_eq identity_key_id key_id || elim (versioned_key_id identity_key_id version) [
      | err _ ↦ false
      | ok versioned ↦ list_eq versioned key_id
    ]

abbrev pub state_of : Option KeyVersionStatus → Option KeyLifecycleState
state_of (some KeyVersionStatus.active) = some KeyLifecycleState.active
state_of (some KeyVersionStatus.retired) = some KeyLifecycleState.retired
state_of (some KeyVersionStatus.revoked) = some KeyLifecycleState.revoked
state_of (some KeyVersionStatus.compromised) = some KeyLifecycleState.compromised
state_of _ = none

-- The loop over the records of the issuer.
unfoldable pub find_state : Text → List KeyVersionRecord → Option KeyLifecycleState
find_state key_id [] = none
find_state key_id (r ∷ records) =
    let rest = find_state key_id records in
    if same_key_id r.identity.key_id r.identity.version key_id then state_of r.status else rest

unfoldable pub lookup_key_lifecycle_state :
    Credaryn → Option Text → Option Text → Option KeyLifecycleState
lookup_key_lifecycle_state credaryn (some issuer_id) (some key_id) = elim credaryn.key_lifecycle [
  | none ↦ none
  | some registry ↦ find_state key_id (list_records (some issuer_id) registry)
]
lookup_key_lifecycle_state credaryn _ _ = none

-- `decideTrust` on the answer of `isTrusted`; a rejected promise means that there is no store.
unfoldable pub decide_answer : Result (Unit {0}) Bool → TrustDecision
decide_answer (ok trusted) =
    decide_trust (record { trust_store_available = true; matching_key = trusted })
decide_answer (err _) =
    decide_trust (record { trust_store_available = false; matching_key = false })

abbrev pub trust_answer : TrustStore → SignerKeyInfo → Result (Unit {0}) Bool
trust_answer store key = elim store.is_trusted [ none ↦ ok false | some call ↦ call key ]

unfoldable pub decide_key : TrustStore → Option SignerKeyInfo → TrustDecision
decide_key store none = decide_answer (ok false)
decide_key store (some key) = decide_answer (trust_answer store key)

abbrev pub is_no_material : Option Text → Bool
is_no_material none = false
is_no_material (some source) = list_eq source (codes "no-trust-material")

-- `resolveTrust` behind the tests of the names.
unfoldable pub resolve_named :
    TrustStore → Option Text → Option Text → Result CredarynError TrustDecision
resolve_named store (some key_id) (some issuer_id) =
    if is_no_material store.trust_source
    then ok TrustDecision.missing
    else elim (store.resolve key_id issuer_id) [
      | err _ ↦ err rejected
      | ok matching_key ↦ ok (decide_key store matching_key)
    ]
resolve_named store _ _ = ok TrustDecision.missing

unfoldable pub resolve_trust :
    PdfVerificationResult → TrustStore → Result CredarynError TrustDecision
resolve_trust result store = elim result.cryptographic_validity [
  | CryptographicValidity.valid ↦ resolve_named store result.key_id result.issuer_id
  | CryptographicValidity.invalid ↦ ok TrustDecision.missing
  | CryptographicValidity.unverifiable ↦ ok TrustDecision.missing
]

abbrev validity_name : CryptographicValidity → Text
validity_name CryptographicValidity.valid = codes "VALID"
validity_name CryptographicValidity.invalid = codes "INVALID"
validity_name CryptographicValidity.unverifiable = codes "UNVERIFIABLE"

abbrev validity_word : CryptographicValidity → Text
validity_word CryptographicValidity.valid = codes "valid"
validity_word CryptographicValidity.invalid = codes "invalid"
validity_word CryptographicValidity.unverifiable = codes "unverifiable"

-- The input of `createVerificationResult` in `verifyPdf`.
unfoldable pub pdf_input :
    Credaryn → TrustStore → PdfVerificationResult → TrustDecision → VerificationInput
pdf_input credaryn store result decision = record {
  cryptographic_validity = result.cryptographic_validity;
  trust_decision = decision;
  lifecycle_status = LifecycleStatus.unchecked;
  security_mode = SecurityMode.digital_artifact_signed;
  artifact_integrity = some result.artifact_integrity;
  issuer_id = result.issuer_id;
  key_id = result.key_id;
  trust_source = store.trust_source;
  key_lifecycle_state = lookup_key_lifecycle_state credaryn result.issuer_id result.key_id;
  document_id = none;
  status_url = none;
  signed_claims = none;
  evidence = some (
      (record {
        code = codes "PDF_" ++ validity_name result.cryptographic_validity;
        message =
            codes "PDF cryptographic validity is " ++ validity_word result.cryptographic_validity;
      })
      ∷ []);
}

abbrev pub or_store : Option TrustStore → TrustStore → TrustStore
or_store none store = store
or_store (some own) store = own

unfoldable pub verify_pdf :
    Credaryn → Bytes → Option TrustStore → Result CredarynError VerificationResult
verify_pdf credaryn pdf_bytes own = do
  let store = or_store own credaryn.trust_store
  result ← map_err (λ _. rejected) (credaryn.pdf_engine.verify pdf_bytes store)
  decision ← resolve_trust result store
  ok (create_verification_result (pdf_input credaryn store result decision))
