-- ===== src/Paper/Cose/Signed.antt =====
-- cose.ts: what verifyCoseSign1 asks of an object that it calls valid.
use credaryn.Core.Document.{CryptographicValidity}
use credaryn.Paper.Cose.Verify.{
  trust_of, signature_holds, find_trusted_key, read_key_id, accepted_result,
  is_supported_critical_header, verify_with_key, verify_with_store, decision_of, verify_parts,
  CoseVerificationResult, verify_cose_sign1, is_es256, CoseVerificationOptions,
}
use credaryn.Paper.Cose.{signed_message, decode_cose_sign1, get_header, CoseSign1Parts}
use credaryn.Base.Text.{list_eq, Text, Bytes}
use credaryn.Base.{
  ◌↔◌, Option-cases, arith, inr, ok_injective, sym, Result-cases, inl, Bool-cases, refl, >>=-eq-ok,
  ok, some, true, ◌≡◌, pos, Bool, Result,
}
use credaryn.Core.Signer.{es256, SignerKeyInfo}
use credaryn.Core.Trust.{TrustStore}

abbrev pub valid_result :
    CoseVerificationOptions → Text → SignerKeyInfo → Bool → Bytes → CoseVerificationResult
valid_result options id key trusted content = record {
  cryptographic_validity = CryptographicValidity.valid;
  trust_decision = decision_of trusted;
  issuer_id = options.issuer_id;
  key_id = some id;
  certificate_fingerprint = key.certificate_fingerprint;
  payload = content;
}

abbrev HasSupportedHeaders : CoseSign1Parts → Type 0
HasSupportedHeaders parts =
    (is_es256 (get_header (pos 1) parts.protected_headers) ≡ true)
    × (is_supported_critical_header (get_header (pos 2) parts.protected_headers) ≡ true)

module _ (check_signature : Bytes → Bytes → Bytes → Result (Unit {0}) Bool) where
  -- The object decodes, its protected headers name ES256 and a key, the trust store knows an ES256
  -- key for it, and the signature over the protected headers and the payload holds for that key.
  pub record IsAccepted (input : Bytes) (options : CoseVerificationOptions)
      (r : CoseVerificationResult) : Type 0 where
    pub parts : CoseSign1Parts
    pub id : Text
    pub store : TrustStore
    pub key : SignerKeyInfo
    pub message : Bytes
    pub trusted : Bool
    pub decoded : decode_cose_sign1 input ≡ ok parts
    pub supported : HasSupportedHeaders parts
    pub named : read_key_id (get_header (pos 4) parts.protected_headers) ≡ some id
    pub has_store : options.trust_store ≡ some store
    pub found : find_trusted_key store options id ≡ ok (some key)
    pub algorithm : list_eq key.algorithm es256 ≡ true
    pub composed : signed_message parts.protected_headers parts.payload ≡ ok message
    pub holds : signature_holds check_signature key.public_key message parts.signature ≡ true
    pub trust : trust_of store key ≡ ok trusted
    pub result : r ≡ valid_result options id key trusted parts.payload

  pub IsAccepted-verify :
      (input : Bytes) (options : CoseVerificationOptions) (r : CoseVerificationResult)
      → IsAccepted input options r
      → verify_cose_sign1 check_signature input options ≡ ok r
  unfolding verify_cose_sign1 verify_parts verify_with_store verify_with_key accepted_result
  IsAccepted-verify input options r a =
      rw
        (
          verify_cose_sign1, a.decoded, verify_parts, a.named, a.supported.0, a.supported.1,
          a.has_store, verify_with_store, a.found, a.algorithm, verify_with_key, a.composed,
          a.holds, accepted_result, a.trust, a.result,
        )
        refl

  -- What passed the signature check is accepted.
  with_key-valid :
      (store : TrustStore) (key : SignerKeyInfo) (options : CoseVerificationOptions) (id : Text)
      (parts : CoseSign1Parts) (r : CoseVerificationResult)
      → verify_with_key check_signature store key options id parts ≡ ok r
      → r.cryptographic_validity ≡ CryptographicValidity.valid
      → (message : Bytes) × (trusted : Bool) × (signed_message parts.protected_headers parts.payload
          ≡ ok message)
        × (signature_holds check_signature key.public_key message parts.signature ≡ true)
        × (trust_of store key ≡ ok trusted)
        × (r ≡ valid_result options id key trusted parts.payload)
  unfolding verify_with_key accepted_result
  with_key-valid store key options id parts r h v =
      let (message, m, h') = >>=-eq-ok (signed_message parts.protected_headers parts.payload) _ h in
      elim (Bool-cases (signature_holds check_signature key.public_key message parts.signature)) [
        | inl holds ↦ elim (Result-cases (trust_of store key)) [
          | inl (trusted, t) ↦ (
            message,
            trusted,
            m,
            holds,
            t,
            sym (ok_injective _ _ (rw (holds, accepted_result, t) at h')),
          )
          | inr (e, t) ↦ absurd (ground arith)
        ]
        | inr fails ↦ absurd (ground arith)
      ]

  with_store-valid :
      (store : TrustStore) (options : CoseVerificationOptions) (id : Text) (parts : CoseSign1Parts)
      (r : CoseVerificationResult)
      → verify_with_store check_signature store options id parts ≡ ok r
      → r.cryptographic_validity ≡ CryptographicValidity.valid
      → (key : SignerKeyInfo) × (find_trusted_key store options id ≡ ok (some key))
        × (list_eq key.algorithm es256 ≡ true)
        × (verify_with_key check_signature store key options id parts ≡ ok r)
  unfolding verify_with_store
  with_store-valid store options id parts r h v =
      elim (Result-cases (find_trusted_key store options id)) [
        | inr (e, f) ↦ absurd (ground arith)
        | inl (o, f) ↦ elim (Option-cases o) [
          | inl n ↦ absurd (ground arith)
          | inr (key, s) ↦
              let found = rw s at f in
              elim (Bool-cases (list_eq key.algorithm es256)) [
                | inl a ↦ (key, found, a, rw (verify_with_store, found, a) at h)
                | inr a ↦ absurd (ground arith)
              ]
        ]
      ]

  parts-valid :
      (parts : CoseSign1Parts) (options : CoseVerificationOptions) (r : CoseVerificationResult)
      → verify_parts check_signature parts options ≡ ok r
      → r.cryptographic_validity ≡ CryptographicValidity.valid
      → (id : Text) × (store : TrustStore) × (read_key_id
            (get_header (pos 4) parts.protected_headers)
          ≡ some id)
        × HasSupportedHeaders parts
        × (options.trust_store ≡ some store)
        × (verify_with_store check_signature store options id parts ≡ ok r)
  unfolding verify_parts
  parts-valid parts options r h v =
      elim (Option-cases (read_key_id (get_header (pos 4) parts.protected_headers))) [
        | inl n ↦ absurd (ground arith)
        | inr (id, n) ↦ elim (Bool-cases (is_es256 (get_header (pos 1) parts.protected_headers))) [
          | inr e ↦ absurd (ground arith)
          | inl e ↦
              elim (Bool-cases
                (is_supported_critical_header (get_header (pos 2) parts.protected_headers))) [
                  | inr c ↦ absurd (ground arith)
                  | inl c ↦ elim (Option-cases options.trust_store) [
                    | inl t ↦ absurd (ground arith)
                    | inr (store, t) ↦ (id, store, n, (e, c), t, rw (verify_parts, n, e, c, t) at h)
                  ]
                ]
        ]
      ]

  verify-IsAccepted :
      (input : Bytes) (options : CoseVerificationOptions) (r : CoseVerificationResult)
      → verify_cose_sign1 check_signature input options ≡ ok r
      → r.cryptographic_validity ≡ CryptographicValidity.valid
      → IsAccepted input options r
  unfolding verify_cose_sign1
  verify-IsAccepted input options r h v = elim (Result-cases (decode_cose_sign1 input)) [
    | inr (e, d) ↦ absurd (ground arith)
    | inl (p, d) ↦
        let (i, s, n, heads, t, h1) = parts-valid p options r (rw (verify_cose_sign1, d) at h) v in
        let (k, f, a, h2) = with_store-valid s options i p r h1 v in
        let (m, b, c, g, u, e) = with_key-valid s k options i p r h2 v in
        record {
          parts = p;
          id = i;
          store = s;
          key = k;
          message = m;
          trusted = b;
          decoded = d;
          supported = heads;
          named = n;
          has_store = t;
          found = f;
          algorithm = a;
          composed = c;
          holds = g;
          trust = u;
          result = e;
        }
  ]

  -- The verification returns a result that says VALID exactly when the object decodes, its
  -- protected headers ask for ES256, name a key and hold no critical label but 1, the trust store
  -- gives an ES256 key for that name (or for the fingerprint) and answers whether it is trusted,
  -- and the signature over the encoded protected headers and the payload holds for the key; the
  -- result then carries the payload, the name, the fingerprint of the key and the answer of the
  -- store.
  pub verify_cose_sign1-valid_iff :
      (input : Bytes) (options : CoseVerificationOptions) (r : CoseVerificationResult)
      → ((verify_cose_sign1 check_signature input options ≡ ok r)
          × (r.cryptographic_validity ≡ CryptographicValidity.valid))
        ↔ IsAccepted input options r
  verify_cose_sign1-valid_iff input options r = (
    (λ (h, v). verify-IsAccepted input options r h v),
    (λ a. (IsAccepted-verify input options r a, rw a.result refl)),
  )
