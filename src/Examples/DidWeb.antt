-- ===== src/Examples/DidWeb.antt =====
-- Runs of the did:web resolver.
use credaryn.Base.{arith, refl, any, ◌++◌, some, All, ℕ, replicate, ◌≡◌, ◌∷◌, []}
use credaryn.Core.DidWeb.Blocks.{is_private_ipv4-blocks, is_in, address, special_blocks}
use credaryn.Core.DidWeb.Embedded.{is_private_address-mapped}
use credaryn.Core.DidWeb.Base58.{decode_base58-number_of, leading, number_of}
use credaryn.Core.DidWeb.Keys.{key_from_jwk-encode}
use credaryn.Core.DidWeb.Address.{is_private_ipv4}
use credaryn.Base.Text.{list_eq, IsByte, codes, Text, Bytes}
use credaryn.Core.DidWeb.Private.{dotted, is_private_address}
use credaryn.Core.DidWeb.Ipv6.{
  bytes_of_groups, hex_value, read_hex, read_group, read_groups, parse_groups, split_double,
  join_halves, expand_tail, ipv6_to_bytes,
}
use credaryn.Core.DidWeb.Encodings.{
  decode_hex, unshift_zeros, position, read_base58, decode_base58, shift_out,
}
use credaryn.Core.Json.{as_string, get_field, string, no_field, field, Fields}
use credaryn.Core.DidWeb.Document.{key_from_jwk}
use credaryn.Base.Split.{split, includes, before, split_last}
use credaryn.Core.DidWeb.Base64Url.{encode_base64_url}
use credaryn.Core.DidWeb.Hex.{decode_hex-print_hex, print_hex}

is_private_ipv4-blocks_example :
    is_private_ipv4 (dotted 172 31 0 1) ≡ any (is_in (address 172 31 0 1)) special_blocks
is_private_ipv4-blocks_example =
    is_private_ipv4-blocks 172 31 0 1 (omega arith) (omega arith) (omega arith) (omega arith)

abbrev always_6 : Text → ℕ
always_6 s = 6

is_private_address-mapped_example :
    is_private_address always_6 (codes "::ffff:" ++ dotted 10 0 0 7)
    ≡ any (is_in (address 10 0 0 7)) special_blocks
is_private_address-mapped_example =
    is_private_address-mapped always_6 10 0 0 7 (omega arith) (omega arith) (omega arith)
      (omega arith) refl

abbrev link_local : Bytes
link_local = 0xfe ∷ 0x80 ∷ (replicate 12 0 ++ 0 ∷ 1 ∷ [])

ipv6_to_bytes_lem : ipv6_to_bytes (codes "fe80::1%eth0") ≡ some link_local
unfolding ipv6_to_bytes expand_tail split_last before includes join_halves split_double parse_groups
    read_groups split read_group read_hex hex_value bytes_of_groups
ipv6_to_bytes_lem = refl

decode_base58_lem : decode_base58 (codes "11Zz") ≡ some (0 ∷ 0 ∷ 7 ∷ 121 ∷ [])
unfolding decode_base58 read_base58 position unshift_zeros shift_out
decode_base58_lem = refl

decode_base58-number_of_example :
    (read_base58 0 (codes "11Zz") ≡ some (number_of 0 (0 ∷ 0 ∷ 7 ∷ 121 ∷ [])))
    × (leading 0 (0 ∷ 0 ∷ 7 ∷ 121 ∷ []) ≡ leading b'1' (codes "11Zz"))
    × All IsByte (0 ∷ 0 ∷ 7 ∷ 121 ∷ [])
decode_base58-number_of_example =
    decode_base58-number_of (codes "11Zz") (0 ∷ 0 ∷ 7 ∷ 121 ∷ []) decode_base58_lem

abbrev x : Bytes
x = replicate 32 0

abbrev y : Bytes
y = replicate 31 0 ++ 15 ∷ []

abbrev jwk : Fields
jwk = field (codes "crv") (string (codes "P-256")) (
    field (codes "x") (string (replicate 43 b'A'))
      (field (codes "y") (string (replicate 42 b'A' ++ b'8' ∷ [])) no_field))

encoded_lem :
    (as_string (get_field (codes "x") jwk) ≡ some (encode_base64_url x))
    × (as_string (get_field (codes "y") jwk) ≡ some (encode_base64_url y))
unfolding get_field list_eq encode_base64_url
encoded_lem = (refl, refl)

curve_lem : as_string (get_field (codes "crv") jwk) ≡ some (codes "P-256")
unfolding get_field list_eq
curve_lem = refl

key_from_jwk-encode_example : key_from_jwk jwk ≡ some (4 ∷ (x ++ y))
unfolding list_eq
key_from_jwk-encode_example =
    key_from_jwk-encode jwk (codes "P-256") x y (omega arith) (omega arith) curve_lem encoded_lem.0
      encoded_lem.1

decode_hex-print_hex_example : decode_hex (codes "04ff") ≡ some (4 ∷ 255 ∷ [])
unfolding print_hex
decode_hex-print_hex_example = decode_hex-print_hex (4 ∷ 255 ∷ []) (omega arith) (omega arith)
