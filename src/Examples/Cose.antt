-- ===== src/Examples/Cose.antt =====
-- packages/paper/src/cose.ts on an object with the key name "k" and a payload of two bytes.
use credaryn.Base.{int_eq}
use credaryn.Core.Document.{CryptographicValidity}
use credaryn.Core.Signer.{es256, SignerKeyInfo}
use credaryn.Base.Text.{trim, is_blank, starts_with, list_eq, codes, Bytes}
use credaryn.Core.Trust.{SignerProvider, TrustStore}
use credaryn.Paper.Cose.Verify.{
  trust_of, by_fingerprint, CoseVerificationOptions, find_trusted_key, verify_cose_sign1,
}
use credaryn.Paper.Cose.{
  build_signature_input, encode_headers, encode_cose_sign1_parts, entries_of, decode_cose_sign1,
  signed_message, CoseSign1Parts, get_header, has_protected_label,
}
use credaryn.Paper.Cbor.Encode.{encoder}
use credaryn.Paper.Cose.Create.{validate_signer_key_info, create_cose_sign1, es256_headers}
use credaryn.Base.{none, refl, ◌↔◌, some, Bool, [], ◌++◌, true, replicate, ok, Result, ◌∷◌, ◌≡◌}
use credaryn.Paper.Cbor.Canonical.{IsCanonical}
use credaryn.Paper.Cbor.{end, mapping, bool}
use credaryn.Paper.Cose.RoundTrip.{AreHeaders, decode_cose-encode_cose}
use credaryn.Paper.Cose.Message.{signed_message-injective}
use credaryn.Paper.Cose.Signed.{verify_cose_sign1-valid_iff, IsAccepted, valid_result}
use credaryn.Paper.Cbor.PrefixFree.{encode_cbor-prefix_free}
use credaryn.Paper.Der.{signature_to_raw}
use credaryn.Paper.Cose.Issued.{verify_cose-create_cose}
use credaryn.Base.Utf8.Ascii.{ascii-IsPlain}

abbrev key : SignerKeyInfo
key = record {
  issuer_id = codes "acme";
  key_id = codes "k";
  algorithm = es256;
  public_key = 0x07 ∷ [];
  certificate_chain = none;
  certificate_fingerprint = none;
}

abbrev raw : Bytes
raw = replicate 64 0x01

abbrev signer : SignerProvider
signer = record { get_key_info = ok key; sign = λ message. ok raw }

abbrev store : TrustStore
store = record {
  resolve = λ id issuer. ok (some key);
  resolve_by_fingerprint = none;
  is_trusted = some (λ candidate. ok true);
  trust_source = none;
}

abbrev options : CoseVerificationOptions
options = record {
  issuer_id = codes "acme";
  trust_store = some store;
  certificate_fingerprint = none;
}

-- Stands for `node:crypto`: the key 7 accepts every signature.
abbrev check_signature : Bytes → Bytes → Bytes → Result (Unit {0}) Bool
check_signature public_key message der = ok (starts_with public_key (0x07 ∷ []))

abbrev content : Bytes
content = 0x01 ∷ 0x02 ∷ []

abbrev object : Bytes
object =
    0x84 ∷ 0x46 ∷ 0xa2 ∷ 0x01 ∷ 0x26 ∷ 0x04 ∷ 0x41 ∷ 0x6b ∷ 0xa0 ∷ 0x42 ∷ 0x01 ∷ 0x02 ∷ 0x58 ∷ 0x40
    ∷ raw

abbrev parts : CoseSign1Parts
parts = record {
  protected_headers = es256_headers (codes "k");
  unprotected_headers = end;
  payload = content;
  signature = raw;
}

encode_parts_lem : encode_cose_sign1_parts parts ≡ ok object
unfolding encoder encode_cose_sign1_parts encode_headers entries_of
encode_parts_lem = refl

create_lem : create_cose_sign1 content signer ≡ ok object
unfolding encoder create_cose_sign1 encode_cose_sign1_parts encode_headers entries_of
    build_signature_input signature_to_raw validate_signer_key_info is_blank trim list_eq
create_lem = refl

parts-IsCanonical : IsCanonical (mapping (entries_of parts.protected_headers)) 0
unfolding encoder entries_of
parts-IsCanonical = ((tt, tt, (tt, tt, tt)), ((refl, tt), (tt, tt)))

parts-AreHeaders : AreHeaders parts.protected_headers
unfolding get_header int_eq
parts-AreHeaders = (refl, refl, (refl, refl, tt))

no_unprotected : IsCanonical (mapping end) 1
unfolding encoder
no_unprotected = (tt, tt)

decode_cose-encode_cose_example : decode_cose_sign1 object ≡ ok parts
unfolding has_protected_label
decode_cose-encode_cose_example =
    decode_cose-encode_cose parts object parts-AreHeaders parts-IsCanonical no_unprotected refl
      encode_parts_lem

abbrev message : Bytes
message =
    0x84
    ∷ 0x6a
    ∷ (codes "Signature1"
        ++ 0x46 ∷ 0xa2 ∷ 0x01 ∷ 0x26 ∷ 0x04 ∷ 0x41 ∷ 0x6b ∷ 0x40 ∷ 0x42 ∷ 0x01 ∷ 0x02 ∷ [])

message_lem : signed_message (es256_headers (codes "k")) content ≡ ok message
unfolding encoder signed_message encode_headers entries_of build_signature_input
message_lem = refl

signed_message-injective_example :
    (es256_headers (codes "k") ≡ es256_headers (codes "k")) × (content ≡ content)
signed_message-injective_example =
    signed_message-injective (es256_headers (codes "k")) (es256_headers (codes "k")) content content
      message parts-IsCanonical parts-IsCanonical message_lem message_lem

verify_cose-create_cose_example :
    verify_cose_sign1 check_signature object options
    ≡ ok (valid_result options (codes "k") key true content)
unfolding find_trusted_key by_fingerprint trust_of list_eq starts_with
verify_cose-create_cose_example =
    verify_cose-create_cose check_signature signer content object options store key key true refl
      (ascii-IsPlain (codes "k") refl) create_lem refl refl refl refl
      (λ message' signature raw' der s c d. refl)

verify_cose_sign1-valid_iff_example :
    ((verify_cose_sign1 check_signature object options
        ≡ ok (valid_result options (codes "k") key true content))
      × (CryptographicValidity.valid ≡ CryptographicValidity.valid))
    ↔ IsAccepted check_signature object options (valid_result options (codes "k") key true content)
verify_cose_sign1-valid_iff_example =
    verify_cose_sign1-valid_iff check_signature object options
      (valid_result options (codes "k") key true content)

encode_cbor-prefix_free_example : (bool true ≡ bool true) × (content ≡ content)
unfolding encoder
encode_cbor-prefix_free_example =
    encode_cbor-prefix_free (bool true) (bool true) (0xf5 ∷ []) (0xf5 ∷ []) content content tt tt
      refl refl refl
