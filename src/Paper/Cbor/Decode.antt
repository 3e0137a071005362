-- ===== src/Paper/Cbor/Decode.antt =====
-- packages/paper/src/cbor.ts: the reader. Its offset into the input is the list of the bytes that
-- are still to be read.
use credaryn.Base.{
  ℕ, zero, suc, ◌+◌, ◌*◌, ◌/◌, ◌%◌, Bool, true, false, not, ◌||◌, none, some, List, [], ◌∷◌, ltb,
  ◌==◌, if◌then◌else◌, length, take, drop, Result, ok, err, ◌>>=◌, ◌>>◌, refuse_if, pos, negsuc,
  max_safe_integer,
}
use credaryn.Base.Text.{Bytes, list_eq}
use credaryn.Base.Utf8.{utf8_decode}
use credaryn.Paper.Cbor.{
  Value, bool, num, text, bytes, array, mapping, Items, nil, cons, Entries, end, entry,
  max_cbor_bytes, max_cbor_depth, max_cbor_items, DecodeError, key_refused,
}
use credaryn.Paper.Cbor.Encode.{encode_deterministic_cbor, encoder}

-- A reading method: the value with the bytes that follow it, or the error.
abbrev pub Reader : Type 0 → Type 0
Reader A = Bytes → Result DecodeError (A × Bytes)

unfoldable pub read_byte : Reader ℕ
read_byte [] = err DecodeError.truncated_input
read_byte (b ∷ input) = ok (b, input)

unfoldable pub byte_count : ℕ → ℕ
byte_count additional =
    if additional == 24
    then 1
    else if additional == 25
    then 2
    else if additional == 26
    then 4
    else if additional == 27
    then 8
    else 0

-- The least number that needs as many bytes.
unfoldable pub least_value : ℕ → ℕ
least_value count =
    if count == 1
    then 24
    else if count == 2
    then 0x100
    else if count == 4
    then 0x1_0000
    else 0x1_0000_0000

-- `value = (value << 8n) | BigInt(this.readByte())`
unfoldable pub read_big_endian : ℕ → ℕ → Reader ℕ
read_big_endian zero value input = ok (value, input)
read_big_endian (suc n) value input = do
  (b, rest) ← read_byte input
  read_big_endian n (value * 0x100 + b) rest

-- The bytes of a length behind its first byte, `count` of them.
unfoldable pub read_extended : ℕ → Reader ℕ
read_extended count input = do
  refuse_if (count == 0) DecodeError.invalid_length
  refuse_if (ltb (length input) count) DecodeError.truncated_length
  (value, rest) ← read_big_endian count 0 input
  refuse_if (ltb value (least_value count)) DecodeError.non_canonical_length
  refuse_if (ltb max_safe_integer value) DecodeError.unsafe_length
  ok (value, rest)

unfoldable pub read_length : ℕ → Reader ℕ
read_length additional input =
    if ltb additional 24
    then ok (additional, input)
    else read_extended (byte_count additional) input

unfoldable pub read_byte_string_length : ℕ → Reader ℕ
read_byte_string_length additional input = do
  (n, rest) ← read_length additional input
  refuse_if (ltb (length rest) n) DecodeError.collection_too_long
  ok (n, rest)

unfoldable pub read_item_count : ℕ → Reader ℕ
read_item_count additional input = do
  (n, rest) ← read_length additional input
  refuse_if (ltb max_cbor_items n) DecodeError.too_many_items
  refuse_if (ltb (length rest) n) DecodeError.collection_too_long
  ok (n, rest)

unfoldable pub read_bytes : ℕ → Reader Bytes
read_bytes n input = do
  refuse_if (ltb (length input) n) DecodeError.truncated_value
  ok (take n input, drop n input)

unfoldable pub read_string : ℕ → Reader Bytes
read_string additional input = do
  (n, rest) ← read_byte_string_length additional input
  read_bytes n rest

unfoldable pub text_of : Bytes → Result DecodeError Value
text_of bs = elim (utf8_decode bs) [ none ↦ err DecodeError.invalid_text | some s ↦ ok (text s) ]

unfoldable pub is_seen : Bytes → List Bytes → Bool
is_seen key [] = false
is_seen key (k ∷ ks) = list_eq k key || is_seen key ks

unfoldable pub encode_key : Value → Result DecodeError Bytes
encode_key k = elim (encode_deterministic_cbor k) [ ok bs ↦ ok bs | err e ↦ err (key_refused e) ]

module _ (read : Reader Value) where
  -- `Array.from({ length }, () => this.readValue(depth + 1))`
  unfoldable pub read_items : ℕ → Reader Items
  read_items zero input = ok (nil, input)
  read_items (suc n) input = do
    (v, rest) ← read input
    (vs, rest') ← read_items n rest
    ok (cons v vs, rest')

  -- The loop over the entries of a map; `seen` holds the encodings of the keys of `map` so far.
  unfoldable pub read_entries : ℕ → List Bytes → Reader Entries
  read_entries zero seen input = ok (end, input)
  read_entries (suc n) seen input = do
    (k, rest) ← read input
    (v, rest') ← read rest
    encoded ← encode_key k
    refuse_if (is_seen encoded seen) DecodeError.duplicate_keys
    (es, rest'') ← read_entries n (encoded ∷ seen) rest'
    ok (entry k v es, rest'')

  -- The `switch` over the major type.
  unfoldable pub read_major : ℕ → ℕ → Reader Value
  read_major major additional input =
      if major == 0
      then (do (n, rest) ← read_length additional input; ok (num (pos n), rest))
      else if major == 1
      then (do (n, rest) ← read_length additional input; ok (num (negsuc n), rest))
      else if major == 2
      then (do (bs, rest) ← read_string additional input; ok (bytes bs, rest))
      else if major == 3
      then (do (bs, rest) ← read_string additional input; s ← text_of bs; ok (s, rest))
      else if major == 4
      then (do
        (n, rest) ← read_item_count additional input
        (vs, rest') ← read_items n rest
        ok (array vs, rest'))
      else if major == 5
      then (do
        (n, rest) ← read_item_count additional input
        (es, rest') ← read_entries n [] rest
        ok (mapping es, rest'))
      else if major == 6
      then err DecodeError.tags_unsupported
      else if not (major == 7)
      then err DecodeError.unsupported_major
      else if additional == 20
      then ok (bool false, input)
      else if additional == 21
      then ok (bool true, input)
      else err DecodeError.simple_unsupported

  unfoldable pub read_initial : Reader Value
  read_initial input = do
    (initial, rest) ← read_byte input
    refuse_if (initial % 32 == 31) DecodeError.indefinite_length
    read_major (initial / 32) (initial % 32) rest

-- `readValue(depth)` with the depths that are left, `max_cbor_depth + 1 - depth`.
unfoldable pub read_value : ℕ → Reader Value
read_value zero input = err DecodeError.depth_exceeded
read_value (suc left) input = read_initial (read_value left) input

unfoldable pub decode_deterministic_cbor : Bytes → Result DecodeError Value
decode_deterministic_cbor input = do
  refuse_if (ltb max_cbor_bytes (length input)) DecodeError.input_too_long
  (v, rest) ← read_value (max_cbor_depth + 1) input
  refuse_if (not (length rest == 0)) DecodeError.trailing_bytes
  ok v

-- The whole decoder, for a run of it.
unfoldable pub decoder : Unit {0}
unfolding encoder decode_deterministic_cbor read_value read_initial read_major read_entries
    read_items encode_key is_seen list_eq text_of utf8_decode read_string read_bytes read_item_count
    read_byte_string_length read_length read_extended read_big_endian least_value byte_count
    read_byte
decoder = tt
