-- ===== src/Core/DidWeb/Document.antt =====
-- trust-policy.ts: didDocumentSignerKey, extractPublicKey and keyFromJwk.
use credaryn.Base.{
  ◌++◌, ◌&&◌, ◌==◌, ◌||◌, not, length, drop, false, none, if◌then◌else◌, Bool, some, Option, ◌∷◌,
  [],
}
use credaryn.Core.Json.{
  Json, Items, Fields, nil, cons, object, array, get_field, as_string, as_record,
}
use credaryn.Core.DidWeb.Encodings.{decode_base58, decode_base64_url, decode_hex}
use credaryn.Base.Split.{after_first}
use credaryn.Base.Options.{◌>>=◌}
use credaryn.Base.Text.{starts_with, list_eq, codes, Text, Bytes}
use credaryn.Core.Signer.{es256, SignerKeyInfo}

unfoldable pub fragment : Text → Text
fragment reference = elim (after_first b'#' reference) [ none ↦ [] | some s ↦ s ]

unfoldable pub uncompressed : Bytes → Bytes → Option Bytes
uncompressed x y = if length x == 32 && length y == 32 then some (4 ∷ (x ++ y)) else none

unfoldable pub key_from_jwk : Fields → Option Bytes
key_from_jwk jwk = do
  curve ← as_string (get_field (codes "crv") jwk)
  x_text ← as_string (get_field (codes "x") jwk)
  y_text ← as_string (get_field (codes "y") jwk)
  x ← decode_base64_url x_text
  y ← decode_base64_url y_text
  if list_eq curve (codes "P-256") then uncompressed x y else none

-- The prefix of a P-256 key in multibase is taken off.
unfoldable pub strip_prefix : Bytes → Bytes
strip_prefix decoded =
    if length decoded == 35 && starts_with decoded (0x80 ∷ 0x24 ∷ [])
    then drop 2 decoded
    else decoded

unfoldable pub read_other_key : Fields → Option Bytes
read_other_key method = elim (as_string (get_field (codes "publicKeyMultibase") method)) [
  | some text ↦ do decoded ← decode_base58 (drop 1 text); some (strip_prefix decoded)
  | none ↦ elim (as_string (get_field (codes "publicKeyBase58") method)) [
    | some text ↦ decode_base58 text
    | none ↦ do text ← as_string (get_field (codes "publicKeyHex") method); decode_hex text
  ]
]

unfoldable pub extract_public_key : Fields → Option Bytes
extract_public_key method = elim (as_record (get_field (codes "publicKeyJwk") method)) [
  | none ↦ read_other_key method
  | some jwk ↦ elim (key_from_jwk jwk) [ some key ↦ some key | none ↦ read_other_key method ]
]

-- `fragment(requestedKeyId) || requestedKeyId`
unfoldable pub requested_fragment : Text → Text
requested_fragment key_id = if length (fragment key_id) == 0 then key_id else fragment key_id

-- The test of a method by its id.
unfoldable pub is_requested : Text → Text → Bool
is_requested key_id id =
    list_eq id key_id
    || (not (length (requested_fragment key_id) == 0)
        && list_eq (fragment id) (requested_fragment key_id))

-- `find` over the methods: the first record with an id that fits, and its id.
unfoldable pub find_method : Text → Items → Option (Fields × Text)
find_method key_id nil = none
find_method key_id (cons (object method) methods) =
    let rest = find_method key_id methods in
    elim (as_string (get_field (codes "id") method)) [
      | none ↦ rest
      | some id ↦ if is_requested key_id id then some (method, id) else rest
    ]
find_method key_id (cons _ methods) = find_method key_id methods

abbrev pub methods_of : Option Json → Items
methods_of (some (array methods)) = methods
methods_of _ = nil

-- An id of the document that is another one.
abbrev pub is_other_id : Option Text → Text → Bool
is_other_id none did = false
is_other_id (some id) did = not (list_eq id did)

unfoldable pub signer_key : Text → Text → Fields × Text → Option SignerKeyInfo
signer_key did key_id (method, id) = do
  public_key ← extract_public_key method
  some (record {
    issuer_id = did;
    key_id = if length key_id == 0 then fragment id else key_id;
    algorithm = es256;
    public_key = public_key;
    certificate_chain = none;
    certificate_fingerprint = none;
  })

unfoldable pub did_document_signer_key : Json → Text → Text → Option SignerKeyInfo
did_document_signer_key document did key_id = do
  fields ← as_record (some document)
  found ← find_method key_id (methods_of (get_field (codes "verificationMethod") fields))
  if is_other_id (as_string (get_field (codes "id") fields)) did
      then none
      else signer_key did key_id found
