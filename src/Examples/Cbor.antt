-- ===== src/Examples/Cbor.antt =====
-- packages/paper/src/cbor.ts on a map with an integer and a text key.
use credaryn.Paper.Cbor.{end, bool, DecodeError, num, text, entry, mapping, Entries}
use credaryn.Base.Text.{codes, starts_with, Bytes}
use credaryn.Paper.Cbor.Encode.{encoder, encode_deterministic_cbor}
use credaryn.Paper.Cbor.Decode.{decoder, decode_deterministic_cbor}
use credaryn.Base.Utf8.{from_points}
use credaryn.Base.{inl, true, pos, max_safe_integer, arith, negsuc, refl, err, [], ok, ◌∷◌, ◌≡◌}
use credaryn.Paper.Cbor.Canonical.{IsCanonical}
use credaryn.Paper.Cbor.RoundTrip.{decode_cbor-encode_cbor}
use credaryn.Paper.Cbor.Determinism.{Rearranged, encode-Rearranged}
use credaryn.Base.Utf8.RoundTrip.{IsPlain}

abbrev entries : Entries
entries = entry (num (negsuc 6)) (bool true) (entry (text (codes "b")) (num (pos 1000)) end)

abbrev moved_entries : Entries
moved_entries = entry (text (codes "b")) (num (pos 1000)) (entry (num (negsuc 6)) (bool true) end)

abbrev encoded : Bytes
encoded = 0xa2 ∷ 0x26 ∷ 0xf5 ∷ 0x61 ∷ 0x62 ∷ 0x19 ∷ 0x03 ∷ 0xe8 ∷ []

encoded_lem : encode_deterministic_cbor (mapping entries) ≡ ok encoded
unfolding encoder
encoded_lem = refl

decoded_lem : decode_deterministic_cbor encoded ≡ ok (mapping entries)
unfolding decoder
decoded_lem = refl

-- A length that has a shorter form, a tag, a repeated key and a lone byte.
refused :
    (decode_deterministic_cbor (0x18 ∷ 0x05 ∷ []) ≡ err DecodeError.non_canonical_length)
    × (decode_deterministic_cbor (0xc0 ∷ 0x00 ∷ []) ≡ err DecodeError.tags_unsupported)
    × (decode_deterministic_cbor (0xa2 ∷ 0x01 ∷ 0x00 ∷ 0x01 ∷ 0x00 ∷ [])
        ≡ err DecodeError.duplicate_keys)
    × (decode_deterministic_cbor (0x00 ∷ 0x00 ∷ []) ≡ err DecodeError.trailing_bytes)
unfolding decoder
refused = (refl, refl, refl, refl)

-- The decoder reads -2^53, which the encoder refuses.
least_integer :
    decode_deterministic_cbor (0x3b ∷ 0x00 ∷ 0x1f ∷ 0xff ∷ 0xff ∷ 0xff ∷ 0xff ∷ 0xff ∷ 0xff ∷ [])
    ≡ ok (num (negsuc max_safe_integer))
unfolding decoder
least_integer = refl

IsPlain-b : IsPlain (codes "b")
unfolding from_points starts_with
IsPlain-b = record {
  points = codes "b";
  scalar = (inl (omega arith), tt);
  same = refl;
  no_mark = refl;
}

entries-IsCanonical : IsCanonical (mapping entries) 0
unfolding encoder
entries-IsCanonical = ((tt, tt, (IsPlain-b, tt, tt)), ((refl, tt), (tt, tt)))

decode_cbor-encode_cbor_example : decode_deterministic_cbor encoded ≡ ok (mapping entries)
decode_cbor-encode_cbor_example =
    decode_cbor-encode_cbor (mapping entries) encoded entries-IsCanonical encoded_lem (omega arith)

encode-Rearranged_example : encode_deterministic_cbor (mapping moved_entries) ≡ ok encoded
encode-Rearranged_example =
    encode-Rearranged entries moved_entries encoded Rearranged.swap encoded_lem
