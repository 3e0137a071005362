-- ===== src/Examples/Node.antt =====
-- packages/node: a PDF is sealed with the active key of its issuer, and verified.
use credaryn.Base.{inr, refl, none, err, true, false, ok, some, ◌≡◌, ◌∷◌, []}
use credaryn.Examples.Seal.{date_parses, descriptor, input, key, parse_url, signer, store}
use credaryn.Core.KeyLifecycle.{KeyVersionStatus, KeyVersionRecord, Registry, get_active}
use credaryn.Node.{
  key_not_active, same_key_id, verify_pdf, PdfVerificationResult, PdfSignatureEngine, Credaryn,
}
use credaryn.Node.Seal.{
  check_active, assert_signing_key_is_active, assert_timestamp_capability, assert_valid,
  SealPdfOptions, seal_pdf,
}
use credaryn.Base.Text.{codes, Text, Bytes}
use credaryn.Core.Descriptor.Validate.{validate_descriptor, validator}
use credaryn.Core.Document.{Verdict, ArtifactIntegrity, CryptographicValidity, VerificationResult}
use credaryn.Core.Descriptor.{production}
use credaryn.Node.Sealed.{MaySign, seal_pdf-eq-ok_iff}
use credaryn.Node.Verified.{verify_pdf-valid_trusted_iff}

abbrev active_key : KeyVersionRecord
active_key = record {
  identity = record {
    issuer_id = codes "acme";
    key_id = codes "k";
    version = codes "1";
    certificate_fingerprint = codes "f";
  };
  key_info = key;
  status = some KeyVersionStatus.active;
  authorized_at = codes "t0";
  activated_at = some (codes "t1");
  retired_at = none;
  revoked_at = none;
  compromised_at = none;
  reason = none;
}

abbrev registry : Registry
registry = (codes "r", active_key) ∷ []

abbrev intact : PdfVerificationResult
intact = record {
  cryptographic_validity = CryptographicValidity.valid;
  artifact_integrity = ArtifactIntegrity.valid;
  key_id = some (codes "k");
  issuer_id = some (codes "acme");
}

-- It adds a byte to sign, and takes every PDF for an intact one.
abbrev pub engine : PdfSignatureEngine
engine = record {
  supports_timestamping = true;
  sign = λ pdf request. ok (0x53 ∷ pdf);
  verify = λ pdf trusted. ok intact;
}

abbrev sdk : Credaryn
sdk = record {
  pdf_engine = engine;
  paper_signer = signer;
  trust_store = store;
  environment = production;
  key_lifecycle = some registry;
}

abbrev stamped : SealPdfOptions
stamped = record { include_paper_seal = false; timestamp_authority_url = some (codes "u") }

abbrev sha256_hex : Bytes → Text
sha256_hex pdf = codes "00"

strict_lem :
    validate_descriptor date_parses parse_url input
      (record { environment = production; require_explicit_currency = true })
    ≡ ok descriptor
unfolding validator
strict_lem = refl

active_lem : MaySign sdk
unfolding get_active same_key_id
active_lem = inr (registry, key, active_key, refl, refl, refl, refl)

seal_pdf-eq-ok_iff_example :
    seal_pdf sha256_hex date_parses parse_url sdk (0x25 ∷ []) input stamped ≡ ok (0x53 ∷ 0x25 ∷ [])
seal_pdf-eq-ok_iff_example =
    (seal_pdf-eq-ok_iff sha256_hex date_parses parse_url sdk input (0x25 ∷ []) stamped
        (0x53 ∷ 0x25 ∷ [])).1
      ((descriptor, strict_lem), refl, inr refl, active_lem, refl)

verify_pdf-valid_trusted_iff_example :
    (answer : VerificationResult) × (verify_pdf sdk (0x25 ∷ []) none ≡ ok answer)
    × (answer.verdict ≡ Verdict.valid_trusted)
verify_pdf-valid_trusted_iff_example =
    (verify_pdf-valid_trusted_iff sdk (0x25 ∷ []) none).1
      (intact, refl, refl, refl, (codes "k", codes "acme", key, refl, refl, refl, refl, refl))

-- A key that the registry does not have as active may not sign.
refused_run :
    seal_pdf sha256_hex date_parses parse_url
      (record sdk { key_lifecycle = some [] })
      (0x25 ∷ [])
      input
      stamped
    ≡ err key_not_active
unfolding validator seal_pdf assert_valid assert_timestamp_capability assert_signing_key_is_active
    check_active get_active
refused_run = refl
