-- ===== src/Paper/Cose.antt =====
-- packages/paper/src/cose.ts: COSE_Sign1 objects, how they are read and written.
pub mod Create
pub mod Verify
pub mod RoundTrip
pub mod Message
pub mod Signed
pub mod Issued
use credaryn.Paper.Cbor.{
  nil, text, entry, cons, EncodeError, end, bytes, mapping, num, array, DecodeError, Entries, Value,
}
use credaryn.Base.{
  map_err, some, is_safe_integer, length, int_eq, [], not, ◌>>=◌, ◌==◌, ◌||◌, ltb, none,
  if◌then◌else◌, err, refuse_if, pos, false, Option, ◌∷◌, ok, Bool, ◌>>◌, List, ℕ, ℤ, Result,
}
use credaryn.Base.Text.{codes, Bytes}
use credaryn.Paper.Der.{DerError}
use credaryn.Paper.Cbor.Encode.{encode_deterministic_cbor}
use credaryn.Paper.Cbor.Decode.{decode_deterministic_cbor}

-- The messages of `CoseVerificationError`, and the errors of the encoder, the signer and the
-- conversion of its signature, which pass through `createCoseSign1`.
pub data CoseError : Type 0 where
  object_too_long not_four_items protected_not_bytes unprotected_not_map : CoseError
  payload_not_bytes signature_not_64_bytes protected_not_map label_not_integer : CoseError
  label_not_protected wrong_algorithm empty_key_id signer_failed : CoseError
  invalid_cbor : DecodeError → CoseError
  encoding_refused : EncodeError → CoseError
  signature_refused : DerError → CoseError

-- `Map<number, unknown>`, in insertion order.
abbrev pub Headers : Type 0
Headers = List (ℤ × Value)

pub record CoseSign1Parts : Type 0 where
  pub protected_headers : Headers
  pub unprotected_headers : Entries
  pub payload : Bytes
  pub signature : Bytes

abbrev pub max_cose_object_bytes : ℕ
max_cose_object_bytes = 1200

-- `Map.get`, `Map.set` on integer labels.
unfoldable pub get_header : ℤ → Headers → Option Value
get_header label [] = none
get_header label ((l, v) ∷ headers) = if int_eq l label then some v else get_header label headers

unfoldable pub set_header : ℤ → Value → Headers → Headers
set_header label v [] = (label, v) ∷ []
set_header label v ((l, w) ∷ headers) =
    let rest = set_header label v headers in
    if int_eq l label then (l, v) ∷ headers else (l, w) ∷ rest

unfoldable pub entries_of : Headers → Entries
entries_of [] = end
entries_of ((l, v) ∷ headers) = entry (num l) v (entries_of headers)

abbrev pub four_items : Value → Result CoseError (Value × Value × Value × Value)
four_items (array (cons a (cons b (cons c (cons d nil))))) = ok (a, b, c, d)
four_items _ = err not_four_items

abbrev pub bytes_or : CoseError → Value → Result CoseError Bytes
bytes_or e (bytes bs) = ok bs
bytes_or e _ = err e

abbrev pub map_or : CoseError → Value → Result CoseError Entries
map_or e (mapping es) = ok es
map_or e _ = err e

abbrev pub label_of : Value → Result CoseError ℤ
label_of (num z) = do refuse_if (not (is_safe_integer z)) label_not_integer; ok z
label_of _ = err label_not_integer

-- The loop that fills `numericHeaders`.
unfoldable pub numeric_headers : Entries → Headers → Result CoseError Headers
numeric_headers end headers = ok headers
numeric_headers (entry k v es) headers = do
  label ← label_of k
  numeric_headers es (set_header label v headers)

abbrev pub is_protected_label : Value → Bool
is_protected_label (num (pos n)) = n == 1 || (n == 2 || n == 4)
is_protected_label _ = false

unfoldable pub has_protected_label : Entries → Bool
has_protected_label end = false
has_protected_label (entry k v es) = is_protected_label k || has_protected_label es

unfoldable pub decode_cose_sign1 : Bytes → Result CoseError CoseSign1Parts
decode_cose_sign1 input = do
  refuse_if (ltb max_cose_object_bytes (length input)) object_too_long
  decoded ← map_err invalid_cbor (decode_deterministic_cbor input)
  (a, b, c, d) ← four_items decoded
  protected_bytes ← bytes_or protected_not_bytes a
  unprotected ← map_or unprotected_not_map b
  content ← bytes_or payload_not_bytes c
  sig ← bytes_or signature_not_64_bytes d
  refuse_if (not (length sig == 64)) signature_not_64_bytes
  protected_value ← map_err invalid_cbor (decode_deterministic_cbor protected_bytes)
  protected_map ← map_or protected_not_map protected_value
  headers ← numeric_headers protected_map []
  refuse_if (has_protected_label unprotected) label_not_protected
  ok (record {
    protected_headers = headers;
    unprotected_headers = unprotected;
    payload = content;
    signature = sig;
  })

unfoldable pub encode_headers : Headers → Result EncodeError Bytes
encode_headers headers = encode_deterministic_cbor (mapping (entries_of headers))

abbrev pub cose_object : Bytes → CoseSign1Parts → Value
cose_object protected_bytes parts = array (
    cons (bytes protected_bytes) (
      cons (mapping parts.unprotected_headers)
        (cons (bytes parts.payload) (cons (bytes parts.signature) nil))))

unfoldable pub encode_cose_sign1_parts : CoseSign1Parts → Result CoseError Bytes
encode_cose_sign1_parts parts = do
  refuse_if (not (length parts.signature == 64)) signature_not_64_bytes
  protected_bytes ← map_err encoding_refused (encode_headers parts.protected_headers)
  encoded ← map_err encoding_refused (encode_deterministic_cbor (cose_object protected_bytes parts))
  refuse_if (ltb max_cose_object_bytes (length encoded)) object_too_long
  ok encoded

-- `buildSignatureInput`.
unfoldable pub build_signature_input : Bytes → Bytes → Result EncodeError Bytes
build_signature_input protected_bytes content = encode_deterministic_cbor (
    array (
      cons (text (codes "Signature1"))
        (cons (bytes protected_bytes) (cons (bytes []) (cons (bytes content) nil)))))

-- What is signed and checked: `buildSignatureInput` on the encoded protected headers.
unfoldable pub signed_message : Headers → Bytes → Result EncodeError Bytes
signed_message headers content = do
  protected_bytes ← encode_headers headers
  build_signature_input protected_bytes content
