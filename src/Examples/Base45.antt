-- ===== src/Examples/Base45.antt =====
-- packages/paper/src/base45.ts on the examples of RFC 9285.
use credaryn.Paper.Base45.{
  invalid_length, invalid_character, two_byte_overflow, encode_base45, decode_base45,
}
use credaryn.Base.Text.{IsByte, codes, Text}
use credaryn.Base.{arith, refl, err, All, ok, [], ◌≡◌, ◌∷◌}
use credaryn.Paper.Base45.RoundTrip.{encode_base45-decode_base45, decode_base45-encode_base45}

encode_ab : encode_base45 (0x41 ∷ 0x42 ∷ []) ≡ ok (codes "BB8")
unfolding encode_base45
encode_ab = refl

decode_ietf : decode_base45 (codes "QED8WEX0") ≡ ok (codes "ietf!")
unfolding decode_base45
decode_ietf = refl

decode_refused :
    (decode_base45 (codes "FGW") ≡ ok (0xff ∷ 0xff ∷ []))
    × (decode_base45 (codes "GGW") ≡ err (two_byte_overflow 0))
    × (decode_base45 (codes "aBC") ≡ err (invalid_character 0))
    × (decode_base45 (codes "ABCD") ≡ err invalid_length)
unfolding decode_base45
decode_refused = (refl, refl, refl, refl)

decode_base45-encode_base45_example :
    (t : Text) × (encode_base45 (0x41 ∷ 0x42 ∷ 0x43 ∷ []) ≡ ok t)
    × (decode_base45 t ≡ ok (0x41 ∷ 0x42 ∷ 0x43 ∷ []))
decode_base45-encode_base45_example =
    decode_base45-encode_base45 (0x41 ∷ 0x42 ∷ 0x43 ∷ []) (omega arith) (omega arith)

encode_base45-decode_base45_example :
    (encode_base45 (codes "ietf!") ≡ ok (codes "QED8WEX0")) × All IsByte (codes "ietf!")
encode_base45-decode_base45_example =
    encode_base45-decode_base45 (codes "QED8WEX0") (codes "ietf!") decode_ietf
