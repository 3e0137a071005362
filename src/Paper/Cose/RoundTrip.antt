-- ===== src/Paper/Cose/RoundTrip.antt =====
-- cose.ts: encodeCoseSign1Parts and decodeCoseSign1 together.
use credaryn.Paper.Cose.{
  object_too_long, max_cose_object_bytes, cose_object, encoding_refused, signature_not_64_bytes,
  has_protected_label, CoseSign1Parts, encode_headers, get_header, entries_of,
  encode_cose_sign1_parts, Headers, set_header, numeric_headers, decode_cose_sign1,
}
use credaryn.Paper.Cbor.Encode.{
  encode_length, encode_items, encode_deterministic_cbor, encode_string, encode_value,
}
use credaryn.Base.{
  ltb_false→le, map_err-eq-ok, passed, subst, length-append, ok_injective, sym, map_err, ltb, ◌==◌,
  ◌+◌, not, refl, refuse_if, inr, ◌≤◌, >>=-eq-ok, arith, length, false, inl, int_eq, append_assoc,
  Bool-cases, append-nil, none, ◌++◌, ℕ, true, ok, is_safe_integer, ℤ, ◌≡◌, ◌∷◌, [],
}
use credaryn.Base.Text.{Bytes}
use credaryn.Paper.Cbor.{EncodeError, bytes, cons, mapping, array, Value, Items}
use credaryn.Paper.Cbor.Canonical.{encode_array-eq-ok, IsCanonical}
use credaryn.Paper.Cbor.RoundTrip.{decode_cbor-encode_cbor}

-- Labels that a `Map<number, unknown>` with these headers before them can hold: safe integers, each
-- one set once.
abbrev FreshAfter : Headers → Headers → Type 0
FreshAfter before [] = Unit
FreshAfter before ((l, v) ∷ headers) =
    (is_safe_integer l ≡ true)
    × (get_header l before ≡ none)
    × FreshAfter (before ++ (l, v) ∷ []) headers

abbrev pub AreHeaders : Headers → Type 0
AreHeaders headers = FreshAfter [] headers

set_header_fresh :
    (l : ℤ) (v : Value) (headers : Headers)
    → get_header l headers ≡ none
    → set_header l v headers ≡ headers ++ (l, v) ∷ []
unfolding set_header get_header
set_header_fresh l v [] h = refl
set_header_fresh l v ((k, w) ∷ headers) h = elim (Bool-cases (int_eq k l)) [
  | inl same ↦ absurd (ground arith)
  | inr other ↦ rw (other, set_header_fresh l v headers (rw other at h))
]

numeric_headers-entries_of :
    (headers before : Headers)
    → FreshAfter before headers
    → numeric_headers (entries_of headers) before ≡ ok (before ++ headers)
unfolding numeric_headers entries_of
numeric_headers-entries_of [] before f = rw append-nil
numeric_headers-entries_of ((l, v) ∷ headers) before (safe, fresh, f) = rw (
  safe,
  set_header_fresh l v before fresh,
  numeric_headers-entries_of headers (before ++ (l, v) ∷ []) f,
  append_assoc before ((l, v) ∷ []) headers,
)

-- The first item of an encoded array is no longer than the array.
length-first_bytes :
    (bs : Bytes) (vs : Items) (depth : ℕ) (out : Bytes)
    → encode_value (array (cons (bytes bs) vs)) depth ≡ ok out
    → length bs ≤ length out
unfolding encode_value encode_string
length-first_bytes bs vs depth out h =
    let (body, e, o, _) = encode_array-eq-ok (cons (bytes bs) vs) depth out h in
    let (first, p, e') = >>=-eq-ok (encode_value (bytes bs) (depth + 1)) _ e in
    let (others, q, e'') = >>=-eq-ok (encode_items vs (depth + 1)) _ e' in
    let (u, g, p') = >>=-eq-ok (refuse_if (ltb 16 (depth + 1)) EncodeError.depth_exceeded) _ p in
    let (header, r, p'') = >>=-eq-ok (encode_length 2 (length bs)) _ p' in
    rw
      (
        o,
        sym (ok_injective _ _ e''),
        sym (ok_injective _ _ p''),
        length-append,
        length-append,
        length-append,
      )
      (omega arith)

-- An object with safe, distinct labels, canonical header maps and the identity labels protected,
-- that is encoded, is decoded to the same object.
pub decode_cose-encode_cose :
    (parts : CoseSign1Parts) (out : Bytes)
    → AreHeaders parts.protected_headers
    → IsCanonical (mapping (entries_of parts.protected_headers)) 0
    → IsCanonical (mapping parts.unprotected_headers) 1
    → has_protected_label parts.unprotected_headers ≡ false
    → encode_cose_sign1_parts parts ≡ ok out
    → decode_cose_sign1 out ≡ ok parts
unfolding decode_cose_sign1 encode_cose_sign1_parts encode_headers encode_deterministic_cbor
decode_cose-encode_cose parts out hs cp cu np h =
    let (u, g, h1) =
      >>=-eq-ok (refuse_if (not (length parts.signature == 64)) signature_not_64_bytes) _ h in
    let (pb, p, h2) =
      >>=-eq-ok (map_err encoding_refused (encode_headers parts.protected_headers)) _ h1 in
    let (encoded, q, h3) =
      >>=-eq-ok (map_err encoding_refused (encode_deterministic_cbor (cose_object pb parts))) _
        h2 in
    let (w, k, h4) =
      >>=-eq-ok (refuse_if (ltb max_cose_object_bytes (length encoded)) object_too_long) _ h3 in
    let same : encoded ≡ out = ok_injective _ _ h4 in
    let long : ltb 1200 (length out) ≡ false =
      subst (λ z. ltb 1200 (length z) ≡ false) same (passed _ _ k) in
    let object =
      subst (λ z. encode_deterministic_cbor (cose_object pb parts) ≡ ok z) same
        (map_err-eq-ok encoding_refused _ q) in
    let headers = map_err-eq-ok encoding_refused _ p in
    let short : length pb ≤ length out = length-first_bytes pb _ 0 out object in
    let bound = ltb_false→le _ _ long in
    rw (
      long,
      decode_cbor-encode_cbor (cose_object pb parts) out (tt, (cu, (tt, (tt, tt)))) object
          (omega arith),
      passed _ _ g,
      decode_cbor-encode_cbor (mapping (entries_of parts.protected_headers)) pb cp headers
          (omega arith),
      numeric_headers-entries_of parts.protected_headers [] hs,
      np,
    )
