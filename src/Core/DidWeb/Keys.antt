-- ===== src/Core/DidWeb/Keys.antt =====
-- trust-policy.ts: keyFromJwk on coordinates in Base64url.
use credaryn.Base.{
  refl, inr, inl, Bool-cases, none, ◌++◌, ◌==◌, length, ◌&&◌, if◌then◌else◌, some, All, ◌∷◌, ◌≡◌,
}
use credaryn.Core.DidWeb.Document.{uncompressed, key_from_jwk}
use credaryn.Core.Json.{get_field, as_string, Fields}
use credaryn.Base.Text.{list_eq, codes, IsByte, Bytes, Text}
use credaryn.Core.DidWeb.Base64Url.{encode_base64_url}
use credaryn.Core.DidWeb.Base64Url.RoundTrip.{decode_base64_url-encode_base64_url}

-- From a JWK with a curve, whose coordinates are two runs of bytes in the Base64url of RFC 4648
-- without padding, keyFromJwk reads 4 followed by the bytes of x and those of y, if the curve is
-- P-256 and both are 32 bytes long, and nothing otherwise.
pub key_from_jwk-encode :
    (jwk : Fields) (curve : Text) (x y : Bytes)
    → All IsByte x
    → All IsByte y
    → as_string (get_field (codes "crv") jwk) ≡ some curve
    → as_string (get_field (codes "x") jwk) ≡ some (encode_base64_url x)
    → as_string (get_field (codes "y") jwk) ≡ some (encode_base64_url y)
    → key_from_jwk jwk ≡ (
        if list_eq curve (codes "P-256") && (length x == 32 && length y == 32)
        then some (4 ∷ (x ++ y))
        else none)
unfolding key_from_jwk uncompressed
key_from_jwk-encode jwk curve x y hx hy c fx fy =
    rw
      (
        c,
        fx,
        fy,
        decode_base64_url-encode_base64_url x hx,
        decode_base64_url-encode_base64_url y hy,
      )
      (elim (Bool-cases (list_eq curve (codes "P-256"))) [ inl p ↦ rw p refl | inr p ↦ rw p refl ])
