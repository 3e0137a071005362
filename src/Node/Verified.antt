-- ===== src/Node/Verified.antt =====
-- credaryn.ts: when verifyPdf trusts a PDF.
use credaryn.Base.{
  inr, map_err-eq-ok, inl, map_err, >>=-eq-ok, ◌↔◌, ◌≢◌, ok_injective, if◌then◌else◌, refl, false,
  err, true, none, some, Bool, ok, Result, Option, ◌≡◌,
}
use credaryn.Core.Verdict.Laws.{create_verification_result-valid_trusted_iff, IsSound}
use credaryn.Core.Trust.{TrustStore}
use credaryn.Node.{
  or_store, PdfVerificationResult, Credaryn, resolve_trust, rejected, pdf_input, CredarynError,
  verify_pdf, is_no_material, trust_answer, decide_answer, decide_key, resolve_named,
}
use credaryn.Core.Verdict.{create_verification_result, decide_trust}
use credaryn.Base.Text.{Bytes, Text}
use credaryn.Core.Signer.{SignerKeyInfo}
use credaryn.Core.Document.{
  ArtifactIntegrity, CryptographicValidity, Verdict, VerificationResult, TrustDecision,
}

-- The store can name the key, resolves it and answers that it is trusted.
abbrev pub IsTrustedBy : TrustStore → Option Text → Option Text → Type 0
IsTrustedBy store key_name issuer_name =
    (key_id : Text) × (issuer_id : Text) × (key : SignerKeyInfo) × (key_name ≡ some key_id)
    × (issuer_name ≡ some issuer_id)
    × (is_no_material store.trust_source ≡ false)
    × (store.resolve key_id issuer_id ≡ ok (some key))
    × (trust_answer store key ≡ ok true)

decide_answer-eq-trusted :
    (answer : Result (Unit {0}) Bool)
    → decide_answer answer ≡ TrustDecision.trusted
    → answer ≡ ok true
unfolding decide_answer decide_trust
decide_answer-eq-trusted (ok true) h = refl
decide_answer-eq-trusted (ok false) h = cc
decide_answer-eq-trusted (err _) h = cc

ok_false≢ok_true : ◌≢◌ {A = Result (Unit {0}) Bool} (ok false) (ok true)
ok_false≢ok_true h = cc

decide_key-eq-trusted :
    (store : TrustStore) (found : Option SignerKeyInfo)
    → decide_key store found ≡ TrustDecision.trusted
    → (key : SignerKeyInfo) × (found ≡ some key) × (trust_answer store key ≡ ok true)
unfolding decide_key
decide_key-eq-trusted store none h =
    absurd (ok_false≢ok_true (decide_answer-eq-trusted (ok false) h))
decide_key-eq-trusted store (some key) h =
    (key, refl, decide_answer-eq-trusted (trust_answer store key) h)

-- The answer of `resolve` in `resolve_named`.
found_decision :
    TrustStore → Result (Unit {0}) (Option SignerKeyInfo) → Result CredarynError TrustDecision
found_decision store answer = elim answer [
  | err _ ↦ err rejected
  | ok matching_key ↦ ok (decide_key store matching_key)
]

found_decision-eq-trusted :
    (store : TrustStore) (answer : Result (Unit {0}) (Option SignerKeyInfo))
    → found_decision store answer ≡ ok TrustDecision.trusted
    → (key : SignerKeyInfo) × (answer ≡ ok (some key)) × (trust_answer store key ≡ ok true)
unfolding found_decision
found_decision-eq-trusted store (err _) h = cc
found_decision-eq-trusted store (ok found) h =
    let (key, f, t) = decide_key-eq-trusted store found (ok_injective _ _ h) in (key, cc, t)

known-IsTrustedBy :
    (store : TrustStore) (key_id issuer_id : Text) (bare : Bool)
    → is_no_material store.trust_source ≡ bare
    → (if bare
        then ok TrustDecision.missing
        else found_decision store (store.resolve key_id issuer_id))
      ≡ ok TrustDecision.trusted
    → IsTrustedBy store (some key_id) (some issuer_id)
known-IsTrustedBy store key_id issuer_id true b h = cc
known-IsTrustedBy store key_id issuer_id false b h =
    let (key, found, trusted) =
      found_decision-eq-trusted store (store.resolve key_id issuer_id) h in
    (key_id, issuer_id, key, refl, refl, b, found, trusted)

resolve_named-IsTrustedBy :
    (store : TrustStore) (key_name issuer_name : Option Text)
    → resolve_named store key_name issuer_name ≡ ok TrustDecision.trusted
    → IsTrustedBy store key_name issuer_name
unfolding resolve_named found_decision
resolve_named-IsTrustedBy store none issuer_name h = cc
resolve_named-IsTrustedBy store (some key_id) none h = cc
resolve_named-IsTrustedBy store (some key_id) (some issuer_id) h =
    known-IsTrustedBy store key_id issuer_id (is_no_material store.trust_source) refl h

IsTrustedBy-resolve_named :
    (store : TrustStore) (key_name issuer_name : Option Text)
    → IsTrustedBy store key_name issuer_name
    → resolve_named store key_name issuer_name ≡ ok TrustDecision.trusted
unfolding resolve_named decide_key decide_answer decide_trust
IsTrustedBy-resolve_named store key_name issuer_name
      (key_id, issuer_id, key, k, i, m, found, trusted) =
    rw (k, i, resolve_named, m, found, decide_key, trusted) refl

resolve_trust-IsTrustedBy :
    (found : PdfVerificationResult) (store : TrustStore)
    → found.cryptographic_validity ≡ CryptographicValidity.valid
    → resolve_trust found store ≡ ok TrustDecision.trusted
    → IsTrustedBy store found.key_id found.issuer_id
unfolding resolve_trust
resolve_trust-IsTrustedBy found store v h =
    resolve_named-IsTrustedBy store found.key_id found.issuer_id (rw (resolve_trust, v) at h)

IsTrustedBy-resolve_trust :
    (found : PdfVerificationResult) (store : TrustStore)
    → found.cryptographic_validity ≡ CryptographicValidity.valid
    → IsTrustedBy store found.key_id found.issuer_id
    → resolve_trust found store ≡ ok TrustDecision.trusted
unfolding resolve_trust
IsTrustedBy-resolve_trust found store v t =
    rw (resolve_trust, v, IsTrustedBy-resolve_named store found.key_id found.issuer_id t) refl

-- What `verifyPdf` answers is never about paper.
pdf_input-intact :
    (credaryn : Credaryn) (store : TrustStore) (found : PdfVerificationResult)
    (decision : TrustDecision)
    → IsSound (pdf_input credaryn store found decision)
    → found.artifact_integrity ≡ ArtifactIntegrity.valid
unfolding pdf_input
pdf_input-intact credaryn store found decision (inl h) = cc
pdf_input-intact credaryn store found decision (inr (mode, h)) = cc

module _ (credaryn : Credaryn) (store : TrustStore) (found : PdfVerificationResult) where
  pdf_verdict-IsTrustedBy :
      (decision : TrustDecision)
      → resolve_trust found store ≡ ok decision
      → (create_verification_result (pdf_input credaryn store found decision)).verdict
        ≡ Verdict.valid_trusted
      → (found.cryptographic_validity ≡ CryptographicValidity.valid)
        × (found.artifact_integrity ≡ ArtifactIntegrity.valid)
        × IsTrustedBy store found.key_id found.issuer_id
  unfolding pdf_input
  pdf_verdict-IsTrustedBy decision d v =
      let (sound, valid, trusted) =
        (create_verification_result-valid_trusted_iff (pdf_input credaryn store found decision)).0
          v in
      (
        valid,
        pdf_input-intact credaryn store found decision sound,
        resolve_trust-IsTrustedBy found store valid (rw trusted at d),
      )

  IsTrustedBy-pdf_verdict :
      found.cryptographic_validity ≡ CryptographicValidity.valid
      → found.artifact_integrity ≡ ArtifactIntegrity.valid
      → (create_verification_result (pdf_input credaryn store found TrustDecision.trusted)).verdict
        ≡ Verdict.valid_trusted
  unfolding pdf_input
  IsTrustedBy-pdf_verdict valid intact =
      (create_verification_result-valid_trusted_iff
          (pdf_input credaryn store found TrustDecision.trusted)).1
        (inl (rw intact refl), valid, refl)

-- The engine finds the signature valid and the bytes intact, and the store trusts the key.
abbrev pub IsTrustedPdf : Credaryn → Bytes → Option TrustStore → Type 0
IsTrustedPdf credaryn pdf_bytes own =
    (found : PdfVerificationResult) × (credaryn.pdf_engine.verify pdf_bytes
        (or_store own credaryn.trust_store)
      ≡ ok found)
    × (found.cryptographic_validity ≡ CryptographicValidity.valid)
    × (found.artifact_integrity ≡ ArtifactIntegrity.valid)
    × IsTrustedBy (or_store own credaryn.trust_store) found.key_id found.issuer_id

-- The verification of a PDF by the SDK returns VALID_TRUSTED exactly when the engine accepts the
-- call and finds the signature valid and the bytes intact, and names a key and an issuer, and the
-- trust store, which is not one without material, resolves this key and says that it is trusted.
pub verify_pdf-valid_trusted_iff :
    (credaryn : Credaryn) (pdf_bytes : Bytes) (own : Option TrustStore)
    → ((answer : VerificationResult) × (verify_pdf credaryn pdf_bytes own ≡ ok answer)
        × (answer.verdict ≡ Verdict.valid_trusted))
      ↔ IsTrustedPdf credaryn pdf_bytes own
unfolding verify_pdf pdf_input resolve_trust
verify_pdf-valid_trusted_iff credaryn pdf_bytes own = (
  (λ (answer, h, trusted).
      let store = or_store own credaryn.trust_store in
      let (found, f, h1) =
        >>=-eq-ok (map_err (λ _. rejected) (credaryn.pdf_engine.verify pdf_bytes store)) _ h in
      let (decision, d, h2) = >>=-eq-ok (resolve_trust found store) _ h1 in
      let (valid, intact, by) =
        pdf_verdict-IsTrustedBy credaryn store found decision d
          (rw (ok_injective _ _ h2) trusted) in
      (found, map_err-eq-ok (λ _. rejected) _ f, valid, intact, by)),
  (λ (found, f, valid, intact, by).
      let store = or_store own credaryn.trust_store in
      (
        create_verification_result (pdf_input credaryn store found TrustDecision.trusted),
        rw (verify_pdf, f, IsTrustedBy-resolve_trust found store valid by) refl,
        IsTrustedBy-pdf_verdict credaryn store found valid intact,
      )),
)
