-- ===== src/Paper/Cose/Create.antt =====
-- packages/paper/src/cose.ts: createCoseSign1 and the check of its signer.
use credaryn.Base.Text.{is_blank, list_eq, Text, Bytes}
use credaryn.Core.Signer.{es256, SignerKeyInfo}
use credaryn.Paper.Cose.{
  encode_cose_sign1_parts, empty_key_id, signature_refused, wrong_algorithm, build_signature_input,
  encode_headers, encoding_refused, signer_failed, CoseError, Headers,
}
use credaryn.Base.{[], ◌∷◌, not, negsuc, refuse_if, map_err, ◌>>◌, ◌>>=◌, pos, Result}
use credaryn.Core.Trust.{SignerProvider}
use credaryn.Paper.Cbor.{end, bytes, num}
use credaryn.Base.Utf8.{utf8_encode}
use credaryn.Paper.Der.{signature_to_raw}

abbrev pub es256_headers : Text → Headers
es256_headers id = (pos 1, num (negsuc 6)) ∷ (pos 4, bytes (utf8_encode id)) ∷ []

unfoldable pub validate_signer_key_info : SignerKeyInfo → Result CoseError (Unit {0})
validate_signer_key_info key_info = do
  refuse_if (not (list_eq key_info.algorithm es256)) wrong_algorithm
  refuse_if (is_blank key_info.key_id) empty_key_id

unfoldable pub create_cose_sign1 : Bytes → SignerProvider → Result CoseError Bytes
unfolding validate_signer_key_info
create_cose_sign1 content signer = do
  key_info ← map_err (λ _. signer_failed) signer.get_key_info
  validate_signer_key_info key_info
  protected_bytes ← map_err encoding_refused (encode_headers (es256_headers key_info.key_id))
  message ← map_err encoding_refused (build_signature_input protected_bytes content)
  signature_bytes ← map_err (λ _. signer_failed) (signer.sign message)
  raw ← map_err signature_refused (signature_to_raw signature_bytes)
  encode_cose_sign1_parts (record {
    protected_headers = es256_headers key_info.key_id;
    unprotected_headers = end;
    payload = content;
    signature = raw;
  })
