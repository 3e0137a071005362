-- ===== src/Paper/Cose/Verify.antt =====
-- packages/paper/src/cose.ts: verifyCoseSign1. The check of a signature by `node:crypto` is a
-- parameter, from the public key, the message and the DER signature to its answer; an error is one
-- that it throws. What the whole function throws is an error of the encoder, which runs outside its
-- `try` blocks.
use credaryn.Core.Document.{CryptographicValidity, TrustDecision}
use credaryn.Base.Text.{is_blank, list_eq, Text, Bytes}
use credaryn.Base.{
  ◌==◌, ◌||◌, length, not, [], if◌then◌else◌, negsuc, pos, ◌&&◌, err, int_eq, ok, ◌>>=◌, false,
  some, true, none, Result, Option, Bool,
}
use credaryn.Paper.Cbor.{nil, bytes, cons, array, EncodeError, num, Value, Items}
use credaryn.Core.Trust.{TrustStore}
use credaryn.Core.Signer.{es256, SignerKeyInfo}
use credaryn.Paper.Cose.{signed_message, get_header, decode_cose_sign1, CoseSign1Parts}
use credaryn.Paper.Der.{raw_to_der}
use credaryn.Base.Utf8.{utf8_decode}

pub record CoseVerificationOptions : Type 0 where
  pub issuer_id : Text
  pub trust_store : Option TrustStore
  pub certificate_fingerprint : Option Text

pub record CoseVerificationResult : Type 0 where
  pub cryptographic_validity : CryptographicValidity
  pub trust_decision : TrustDecision
  pub issuer_id : Text
  pub key_id : Option Text
  pub certificate_fingerprint : Option Text
  pub payload : Bytes

unfoldable pub read_key_id : Option Value → Option Text
read_key_id (some (bytes bs)) =
    if length bs == 0
    then none
    else elim (utf8_decode bs) [ none ↦ none | some s ↦ if is_blank s then none else some s ]
read_key_id _ = none

abbrev pub is_es256 : Option Value → Bool
is_es256 (some (num z)) = int_eq z (negsuc 6)
is_es256 _ = false

abbrev is_one : Value → Bool
is_one (num z) = int_eq z (pos 1)
is_one _ = false

abbrev all_one : Items → Bool
all_one nil = true
all_one (cons v vs) = is_one v && all_one vs

unfoldable pub is_supported_critical_header : Option Value → Bool
is_supported_critical_header none = true
is_supported_critical_header (some (array vs)) = all_one vs
is_supported_critical_header _ = false

abbrev pub invalid_result : Text → Option Text → Bytes → CoseVerificationResult
invalid_result issuer id content = record {
  cryptographic_validity = CryptographicValidity.invalid;
  trust_decision = TrustDecision.missing;
  issuer_id = issuer;
  key_id = id;
  certificate_fingerprint = none;
  payload = content;
}

abbrev pub unverifiable_result : Text → Option Text → Bytes → CoseVerificationResult
unverifiable_result issuer id content = record {
  cryptographic_validity = CryptographicValidity.unverifiable;
  trust_decision = TrustDecision.missing;
  issuer_id = issuer;
  key_id = id;
  certificate_fingerprint = none;
  payload = content;
}

unfoldable pub by_fingerprint :
    TrustStore → Option Text → Option SignerKeyInfo → Result (Unit {0}) (Option SignerKeyInfo)
by_fingerprint store _ (some key) = ok (some key)
by_fingerprint store none none = ok none
by_fingerprint store (some fingerprint) none = elim store.resolve_by_fingerprint [
  | none ↦ ok none
  | some call ↦ call fingerprint
]

-- The two lookups of `trustedKey`.
unfoldable pub find_trusted_key :
    TrustStore → CoseVerificationOptions → Text → Result (Unit {0}) (Option SignerKeyInfo)
find_trusted_key store options id = do
  found ← store.resolve id options.issuer_id
  by_fingerprint store options.certificate_fingerprint found

unfoldable pub trust_of : TrustStore → SignerKeyInfo → Result (Unit {0}) Bool
trust_of store key = elim store.is_trusted [ none ↦ ok false | some call ↦ call key ]

abbrev pub decision_of : Bool → TrustDecision
decision_of true = TrustDecision.trusted
decision_of false = TrustDecision.untrusted

-- The last return, behind a signature that holds.
unfoldable pub accepted_result :
    TrustStore
    → SignerKeyInfo
    → CoseVerificationOptions
    → Text
    → CoseSign1Parts
    → CoseVerificationResult
accepted_result store key options id parts = elim (trust_of store key) [
  | err _ ↦ unverifiable_result options.issuer_id (some id) parts.payload
  | ok trusted ↦ record {
    cryptographic_validity = CryptographicValidity.valid;
    trust_decision = decision_of trusted;
    issuer_id = options.issuer_id;
    key_id = some id;
    certificate_fingerprint = key.certificate_fingerprint;
    payload = parts.payload;
  }
]

module _ (check_signature : Bytes → Bytes → Bytes → Result (Unit {0}) Bool) where
  unfoldable pub signature_holds : Bytes → Bytes → Bytes → Bool
  signature_holds public_key message raw = elim (raw_to_der raw) [
    | err _ ↦ false
    | ok der ↦ elim (check_signature public_key message der) [ err _ ↦ false | ok b ↦ b ]
  ]

  unfoldable pub verify_with_key :
      TrustStore
      → SignerKeyInfo
      → CoseVerificationOptions
      → Text
      → CoseSign1Parts
      → Result EncodeError CoseVerificationResult
  verify_with_key store key options id parts = do
    message ← signed_message parts.protected_headers parts.payload
    ok (
        if signature_holds key.public_key message parts.signature
        then accepted_result store key options id parts
        else invalid_result options.issuer_id (some id) parts.payload)

  unfoldable pub verify_with_store :
      TrustStore
      → CoseVerificationOptions
      → Text
      → CoseSign1Parts
      → Result EncodeError CoseVerificationResult
  verify_with_store store options id parts = elim (find_trusted_key store options id) [
    | err _ ↦ ok (unverifiable_result options.issuer_id (some id) parts.payload)
    | ok none ↦ ok (unverifiable_result options.issuer_id (some id) parts.payload)
    | ok (some key) ↦
        let verified = verify_with_key store key options id parts in
        if list_eq key.algorithm es256
        then verified
        else ok (unverifiable_result options.issuer_id (some id) parts.payload)
  ]

  unfoldable pub verify_parts :
      CoseSign1Parts → CoseVerificationOptions → Result EncodeError CoseVerificationResult
  verify_parts parts options = elim (read_key_id (get_header (pos 4) parts.protected_headers)) [
    | none ↦ ok (invalid_result options.issuer_id none parts.payload)
    | some id ↦
        if not (is_es256 (get_header (pos 1) parts.protected_headers))
          || not (is_supported_critical_header (get_header (pos 2) parts.protected_headers))
        then ok (invalid_result options.issuer_id (some id) parts.payload)
        else elim options.trust_store [
          | none ↦ ok (unverifiable_result options.issuer_id (some id) parts.payload)
          | some store ↦ verify_with_store store options id parts
        ]
  ]

  unfoldable pub verify_cose_sign1 :
      Bytes → CoseVerificationOptions → Result EncodeError CoseVerificationResult
  verify_cose_sign1 input options = elim (decode_cose_sign1 input) [
    | err _ ↦ ok (invalid_result options.issuer_id none [])
    | ok parts ↦ verify_parts parts options
  ]
