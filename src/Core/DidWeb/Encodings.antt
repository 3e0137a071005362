-- ===== src/Core/DidWeb/Encodings.antt =====
-- trust-policy.ts: decodeBase58, decodeBase64Url and decodeHex. `atob` is written out as the standard
-- of browsers describes it; the text is made of ASCII characters where it is accepted.
use credaryn.Base.{◌-◌, ◌||◌, replicate, Bool, List, ◌++◌, ◌∷◌}
use mathlib.Core.List.{reverse}
use credaryn.Core.DidWeb.Ipv6.{hex_value}
use credaryn.Base.Options.{◌>>=◌}
use credaryn.Base.Text.{codes, Bytes, Text}
use credaryn.Base.{
  zero, ltb, [], ◌+◌, ◌%◌, ◌==◌, ◌*◌, ◌/◌, length, none, some, suc, ◌∷◌, if◌then◌else◌, Option, ℕ,
}

abbrev pub base58_alphabet : Text
base58_alphabet = codes "123456789ABCDEFGHJKLMNPQRSTUVWXYZabcdefghijkmnopqrstuvwxyz"

-- `alphabet.indexOf(character)`, `none` for -1.
unfoldable pub position : ℕ → Text → Option ℕ
position c [] = none
position c (d ∷ s) =
    let rest = position c s in
    if d == c then some 0 else elim rest [ none ↦ none | some n ↦ some (suc n) ]

-- The first loop, from the number that is read so far.
unfoldable pub read_base58 : ℕ → Text → Option ℕ
read_base58 numeric [] = some numeric
read_base58 numeric (c ∷ s) = do
  index ← position c base58_alphabet
  read_base58 (numeric * 58 + index) s

-- The second loop, which puts the lowest byte in front of the bytes so far. Its rounds are counted
-- down from the fuel, of which a character of the text gives enough for one byte.
unfoldable pub shift_out : ℕ → ℕ → Bytes → Bytes
shift_out zero numeric bytes = bytes
shift_out (suc fuel) numeric bytes =
    let rest = shift_out fuel (numeric / 256) ((numeric % 256) ∷ bytes) in
    if ltb 0 numeric then rest else bytes

-- The third loop.
unfoldable pub unshift_zeros : Text → Bytes → Bytes
unshift_zeros [] bytes = bytes
unshift_zeros (c ∷ s) bytes =
    let rest = unshift_zeros s (0 ∷ bytes) in if c == b'1' then rest else bytes

unfoldable pub decode_base58 : Text → Option Bytes
decode_base58 value = if length value == 0 then none else elim (read_base58 0 value) [
  | none ↦ none
  | some numeric ↦ some (unshift_zeros value (shift_out (length value) numeric []))
]

-- The pairs of digits.
unfoldable pub read_pairs : Text → Option Bytes
read_pairs [] = some []
read_pairs (c ∷ []) = none
read_pairs (c ∷ d ∷ s) = do
  high ← hex_value c
  low ← hex_value d
  bytes ← read_pairs s
  some ((high * 16 + low) ∷ bytes)

unfoldable pub decode_hex : Text → Option Bytes
decode_hex value = if length value == 0 then none else read_pairs value

abbrev pub base64_alphabet : Text
base64_alphabet = codes "ABCDEFGHIJKLMNOPQRSTUVWXYZabcdefghijklmnopqrstuvwxyz0123456789+/"

-- The two calls of `replace`.
unfoldable pub normalize_base64 : Text → Text
normalize_base64 [] = []
normalize_base64 (c ∷ s) =
    (if c == b'-' then b'+' else if c == b'_' then b'/' else c) ∷ normalize_base64 s

abbrev pub is_ascii_space : ℕ → Bool
is_ascii_space c = c == 9 || c == 10 || c == 12 || c == 13 || c == 32

unfoldable pub strip_spaces : Text → Text
strip_spaces [] = []
strip_spaces (c ∷ s) = let rest = strip_spaces s in if is_ascii_space c then rest else c ∷ rest

-- One `=` or two are taken off the end of a text of a multiple of four characters.
abbrev pub drop_equals : Text → Text
drop_equals [] = []
drop_equals (c ∷ []) = if c == b'=' then [] else c ∷ []
drop_equals (c ∷ d ∷ s) = if c == b'=' then (if d == b'=' then s else d ∷ s) else c ∷ d ∷ s

unfoldable pub strip_padding : Text → Text
strip_padding s = if length s % 4 == 0 then reverse (drop_equals (reverse s)) else s

unfoldable pub read_sextets : Text → Option (List ℕ)
read_sextets [] = some []
read_sextets (c ∷ s) = do
  sextet ← position c base64_alphabet
  sextets ← read_sextets s
  some (sextet ∷ sextets)

unfoldable pub bytes_of_sextets : List ℕ → Option Bytes
bytes_of_sextets [] = some []
bytes_of_sextets (a ∷ []) = none
bytes_of_sextets (a ∷ b ∷ []) = some ((a * 4 + b / 16) ∷ [])
bytes_of_sextets (a ∷ b ∷ c ∷ []) = some ((a * 4 + b / 16) ∷ (b % 16 * 16 + c / 4) ∷ [])
bytes_of_sextets (a ∷ b ∷ c ∷ d ∷ s) = do
  bytes ← bytes_of_sextets s
  some ((a * 4 + b / 16) ∷ (b % 16 * 16 + c / 4) ∷ (c % 4 * 64 + d) ∷ bytes)

unfoldable pub atob : Text → Option Bytes
atob s = do sextets ← read_sextets (strip_padding (strip_spaces s)); bytes_of_sextets sextets

unfoldable pub decode_base64_url : Text → Option Bytes
decode_base64_url value =
    let normalized = normalize_base64 value in
    atob (normalized ++ replicate ((4 - length normalized % 4) % 4) b'=')
