-- ===== src/Paper/Cose/Issued.antt =====
-- cose.ts: what createCoseSign1 writes and what verifyCoseSign1 says of it.
use credaryn.Base.{
  Bool, Result, ==_iff, map_err-eq-ok, passed, map_err, not, refuse_if, >>=-eq-ok, ok, ◌==◌, pos,
  false, int_eq,
}
use credaryn.Paper.Cose.{
  has_protected_label, signature_refused, signer_failed, build_signature_input, encode_headers,
  encoding_refused, wrong_algorithm, encode_cose_sign1_parts, signed_message, CoseSign1Parts,
  entries_of, get_header,
}
use credaryn.Base.Text.{list_eq, Bytes, trim, is_blank, Text}
use credaryn.Paper.Cose.Verify.{
  verify_cose_sign1, trust_of, find_trusted_key, CoseVerificationOptions, signature_holds, is_es256,
  is_supported_critical_header, read_key_id,
}
use credaryn.Paper.Cbor.Encode.{
  compare_bytes, length_bytes, encode_length, encode_string, encode_integer, encode_value,
}
use credaryn.Base.Utf8.RoundTrip.{utf8_decode-utf8_encode, IsPlain}
use credaryn.Base.{
  sym, arith, some, ◌∷◌, [], refl, inr, inl, max_safe_integer, ltb, Bool-cases, true, ◌≡◌, length,
}
use credaryn.Base.Utf8.{utf8_decode, utf8_encode}
use credaryn.Paper.Cbor.Canonical.{IsCanonical}
use credaryn.Paper.Cbor.{end, mapping}
use credaryn.Paper.Cose.Create.{validate_signer_key_info, create_cose_sign1, es256_headers}
use credaryn.Paper.Cose.RoundTrip.{decode_cose-encode_cose, AreHeaders}
use credaryn.Core.Trust.{TrustStore, SignerProvider}
use credaryn.Core.Signer.{es256, SignerKeyInfo}
use credaryn.Paper.Der.{raw_to_der, signature_to_raw}
use credaryn.Paper.Der.Raw.{der_to_raw-raw_to_der}
use credaryn.Paper.Cose.Signed.{IsAccepted-verify, valid_result}

headers-IsCanonical : (id : Text) → IsCanonical (mapping (entries_of (es256_headers id))) 0
unfolding entries_of encode_value encode_integer encode_string encode_length length_bytes
    compare_bytes
headers-IsCanonical id = elim (Bool-cases (ltb max_safe_integer (length (utf8_encode id)))) [
  | inl long ↦ ((tt, tt, (tt, tt, tt)), rw long tt)
  | inr short ↦ ((tt, tt, (tt, tt, tt)), rw short ((refl, tt), (tt, tt)))
]

headers-AreHeaders : (id : Text) → AreHeaders (es256_headers id)
unfolding get_header int_eq
headers-AreHeaders id = (refl, refl, (refl, refl, tt))

headers_supported :
    (id : Text)
    → (is_es256 (get_header (pos 1) (es256_headers id)) ≡ true)
      × (is_supported_critical_header (get_header (pos 2) (es256_headers id)) ≡ true)
unfolding get_header int_eq is_supported_critical_header
headers_supported id = (refl, refl)

length_nil : (bs : Bytes) → length bs ≡ 0 → bs ≡ []
length_nil [] h = refl
length_nil (b ∷ bs) h = absurd (omega arith)

no_bytes-blank : (id : Text) → IsPlain id → length (utf8_encode id) ≡ 0 → is_blank id ≡ true
unfolding is_blank trim utf8_decode list_eq
no_bytes-blank id p e =
    let none_left = length_nil (utf8_encode id) e in
    let back : some [] ≡ some id = rw none_left at (utf8_decode-utf8_encode id p) in
    let same : [] ≡ id = cc in rw (sym same) refl

key_id_back :
    (id : Text)
    → IsPlain id
    → is_blank id ≡ false
    → read_key_id (get_header (pos 4) (es256_headers id)) ≡ some id
unfolding read_key_id get_header int_eq
key_id_back id p b = elim (Bool-cases (length (utf8_encode id) == 0)) [
  | inl empty ↦ absurd (ground (arith, no_bytes-blank id p))
  | inr some_left ↦ rw (some_left, utf8_decode-utf8_encode id p, b) refl
]

abbrev issued_parts : Text → Bytes → Bytes → CoseSign1Parts
issued_parts id content raw = record {
  protected_headers = es256_headers id;
  unprotected_headers = end;
  payload = content;
  signature = raw;
}

-- What a created object was made of.
pub record IsIssued (content : Bytes) (signer : SignerProvider) (out : Bytes)
    (key_info : SignerKeyInfo) : Type 0 where
  pub message : Bytes
  pub signature : Bytes
  pub raw : Bytes
  pub named : is_blank key_info.key_id ≡ false
  pub composed : signed_message (es256_headers key_info.key_id) content ≡ ok message
  pub signed : signer.sign message ≡ ok signature
  pub converted : signature_to_raw signature ≡ ok raw
  pub encoded : encode_cose_sign1_parts (issued_parts key_info.key_id content raw) ≡ ok out

issued :
    (content : Bytes) (signer : SignerProvider) (out : Bytes) (key_info : SignerKeyInfo)
    → signer.get_key_info ≡ ok key_info
    → create_cose_sign1 content signer ≡ ok out
    → IsIssued content signer out key_info
unfolding create_cose_sign1 validate_signer_key_info signed_message
issued content signer out key_info k h =
    let h0 = rw (create_cose_sign1, k) at h in
    let (u, v, h1) = >>=-eq-ok (validate_signer_key_info key_info) _ h0 in
    let (w, a, b) =
      >>=-eq-ok (refuse_if (not (list_eq key_info.algorithm es256)) wrong_algorithm) _ v in
    let (pb, p, h2) =
      >>=-eq-ok (map_err encoding_refused (encode_headers (es256_headers key_info.key_id))) _ h1 in
    let (m, q, h3) = >>=-eq-ok (map_err encoding_refused (build_signature_input pb content)) _ h2 in
    let (s, r, h4) = >>=-eq-ok (map_err (λ _. signer_failed) (signer.sign m)) _ h3 in
    let (x, t, h5) = >>=-eq-ok (map_err signature_refused (signature_to_raw s)) _ h4 in
    record {
      message = m;
      signature = s;
      raw = x;
      named = passed _ _ b;
      composed = rw (map_err-eq-ok encoding_refused _ p) (map_err-eq-ok encoding_refused _ q);
      signed = map_err-eq-ok (λ _. signer_failed) _ r;
      converted = map_err-eq-ok signature_refused _ t;
      encoded = h5;
    }

-- The public key accepts what the signer signs.
abbrev pub IsKeyOf :
    (Bytes → Bytes → Bytes → Result (Unit {0}) Bool) → Bytes → SignerProvider → Type 0
IsKeyOf check_signature public_key signer =
    (message signature raw der : Bytes)
    → signer.sign message ≡ ok signature
    → signature_to_raw signature ≡ ok raw
    → raw_to_der raw ≡ ok der
    → check_signature public_key message der ≡ ok true

no_unprotected : IsCanonical (mapping end) 1 × (has_protected_label end ≡ false)
unfolding encode_value has_protected_label
no_unprotected = ((tt, tt), refl)

length-issued :
    (parts : CoseSign1Parts) (out : Bytes)
    → encode_cose_sign1_parts parts ≡ ok out
    → length parts.signature ≡ 64
unfolding encode_cose_sign1_parts
length-issued parts out h = elim (Bool-cases (length parts.signature == 64)) [
  | inl same ↦ (==_iff _ _).0 same
  | inr other ↦ absurd (ground arith)
]

signature_holds-issued :
    (check_signature : Bytes → Bytes → Bytes → Result (Unit {0}) Bool) (public_key : Bytes)
    (signer : SignerProvider) (message signature raw : Bytes)
    → IsKeyOf check_signature public_key signer
    → signer.sign message ≡ ok signature
    → signature_to_raw signature ≡ ok raw
    → length raw ≡ 64
    → signature_holds check_signature public_key message raw ≡ true
unfolding signature_holds
signature_holds-issued check_signature public_key signer message signature raw k s c l =
    let (der, d, _) = der_to_raw-raw_to_der raw l in
    rw (signature_holds, d, k message signature raw der s c d) refl

-- If the trust store gives an ES256 key for the key name of the signer and answers whether it is
-- trusted, and this key accepts what the signer signs, then an object that was created with this
-- signer, whose key name is plain text, is verified: the result says VALID, and carries the
-- payload, the key name and the answer of the store.
pub verify_cose-create_cose :
    (check_signature : Bytes → Bytes → Bytes → Result (Unit {0}) Bool) (signer : SignerProvider)
    (content out : Bytes) (options : CoseVerificationOptions) (store : TrustStore)
    (key_info key : SignerKeyInfo) (trusted : Bool)
    → signer.get_key_info ≡ ok key_info
    → IsPlain key_info.key_id
    → create_cose_sign1 content signer ≡ ok out
    → options.trust_store ≡ some store
    → find_trusted_key store options key_info.key_id ≡ ok (some key)
    → list_eq key.algorithm es256 ≡ true
    → trust_of store key ≡ ok trusted
    → IsKeyOf check_signature key.public_key signer
    → verify_cose_sign1 check_signature out options
      ≡ ok (valid_result options key_info.key_id key trusted content)
verify_cose-create_cose check_signature signer content out options s key_info k b info p h has f a t
      e =
    let made = issued content signer out key_info info h in
    let id = key_info.key_id in
    let parts' = issued_parts id content made.raw in
    IsAccepted-verify check_signature out options _ (record {
      parts = parts';
      id = id;
      store = s;
      key = k;
      message = made.message;
      trusted = b;
      decoded =
          decode_cose-encode_cose parts' out (headers-AreHeaders id) (headers-IsCanonical id)
            no_unprotected.0 no_unprotected.1 made.encoded;
      supported = headers_supported id;
      named = key_id_back id p made.named;
      has_store = has;
      found = f;
      algorithm = a;
      composed = made.composed;
      holds =
          signature_holds-issued check_signature k.public_key signer made.message made.signature
            made.raw e made.signed made.converted (length-issued parts' out made.encoded);
      trust = t;
      result = refl;
    })
