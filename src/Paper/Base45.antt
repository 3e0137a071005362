-- ===== src/Paper/Base45.antt =====
-- packages/paper/src/base45.ts: bytes as text over an alphabet of 45 characters.
pub mod RoundTrip
use credaryn.Base.Text.{codes, Text, Bytes}
use mathlib.Core.Option
use credaryn.Base.{
  length, ltb, refuse_if, ◌>>◌, suc, ◌>>=◌, [], ◌==◌, ◌*◌, some, ◌++◌, if◌then◌else◌, err, ◌/◌, ◌%◌,
  none, ok, ◌+◌, get_elem?, ◌∷◌, Result, Option, ℕ,
}

abbrev pub base45_alphabet : Text
base45_alphabet = codes "0123456789ABCDEFGHIJKLMNOPQRSTUVWXYZ $%*+-./:"

abbrev pub max_base45_binary_bytes : ℕ
max_base45_binary_bytes = 4096

-- `Math.ceil(MAX_BASE45_BINARY_BYTES / 2) * 3`
abbrev pub max_base45_text_chars : ℕ
max_base45_text_chars = (max_base45_binary_bytes + 1) / 2 * 3

-- The messages of `Base45Error`, some with an offset into the text.
pub data Base45Error : Type 0 where
  input_too_long text_too_long invalid_length : Base45Error
  two_byte_overflow one_byte_overflow invalid_character : ℕ → Base45Error

-- What `output += BASE45_ALPHABET[n]` appends.
unfoldable pub character : ℕ → Text
character n = elim (get_elem? base45_alphabet n) [ none ↦ codes "undefined" | some c ↦ c ∷ [] ]

unfoldable pub encode_chunks : Bytes → Text
unfolding character
encode_chunks [] = []
encode_chunks (a ∷ []) = character (a % 45) ++ character (a / 45)
encode_chunks (a ∷ b ∷ input) =
    let value = a * 256 + b in
    character (value % 45)
    ++ (character (value / 45 % 45) ++ (character (value / 2025) ++ encode_chunks input))

unfoldable pub encode_base45 : Bytes → Result Base45Error Text
unfolding encode_chunks
encode_base45 input = do
  refuse_if (ltb max_base45_binary_bytes (length input)) input_too_long
  ok (encode_chunks input)

-- The position of a character in the alphabet, as `BASE45_LOOKUP` has it.
unfoldable pub index_of : ℕ → Text → Option ℕ
index_of c [] = none
index_of c (d ∷ s) = if d == c then some 0 else Option.map suc (index_of c s)

unfoldable pub read_character : ℕ → ℕ → Result Base45Error ℕ
unfolding index_of
read_character c offset = elim (index_of c base45_alphabet) [
  | none ↦ err (invalid_character offset)
  | some n ↦ ok n
]

-- The loop over the text, three characters at a time. The second character of the last round is
-- missing where the text has one character more than a multiple of three.
unfoldable pub decode_chunks : ℕ → Text → Result Base45Error Bytes
unfolding read_character
decode_chunks index [] = ok []
decode_chunks index (a ∷ []) = do
  first ← read_character a index
  err (invalid_character (index + 1))
decode_chunks index (a ∷ b ∷ []) = do
  first ← read_character a index
  second ← read_character b (index + 1)
  refuse_if (ltb 0xff (first + second * 45)) (one_byte_overflow index)
  ok ((first + second * 45) ∷ [])
decode_chunks index (a ∷ b ∷ c ∷ input) = do
  first ← read_character a index
  second ← read_character b (index + 1)
  third ← read_character c (index + 2)
  refuse_if (ltb 0xffff (first + second * 45 + third * 2025)) (two_byte_overflow index)
  output ← decode_chunks (index + 3) input
  ok (
      ((first + second * 45 + third * 2025) / 256)
      ∷ ((first + second * 45 + third * 2025) % 256)
      ∷ output)

unfoldable pub decode_base45 : Text → Result Base45Error Bytes
unfolding decode_chunks
decode_base45 input = do
  refuse_if (ltb max_base45_text_chars (length input)) text_too_long
  refuse_if (length input % 3 == 1) invalid_length
  decode_chunks 0 input
