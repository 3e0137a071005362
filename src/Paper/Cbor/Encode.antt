-- ===== src/Paper/Cbor/Encode.antt =====
-- packages/paper/src/cbor.ts: the deterministic encoder.
use credaryn.Base.{
  ℕ, zero, suc, ◌+◌, ◌*◌, ◌/◌, ◌%◌, Bool, false, not, ◌||◌, List, [], ◌∷◌, ◌++◌, ltb, leb, ◌==◌,
  if◌then◌else◌, length, Result, ok, err, ◌>>=◌, ◌>>◌, refuse_if, ℤ, pos, negsuc, max_safe_integer,
  is_safe_integer, sub_ℕ, is_zero, is_positive,
}
use credaryn.Base.Text.{Bytes}
use credaryn.Base.Utf8.{utf8_encode}
use credaryn.Paper.Cbor.{
  Value, bool, num, fraction, text, bytes, array, mapping, object, unsupported, Items, nil, cons,
  Entries, end, entry, Fields, done, field, count_items, count_entries, count_fields,
  max_cbor_depth, max_cbor_items, EncodeError,
}

-- The loop that fills eight bytes from the last to the first, on `n` bytes.
pub big_endian : ℕ → ℕ → Bytes
big_endian zero value = []
big_endian (suc n) value = big_endian n (value / 0x100) ++ (value % 0x100) ∷ []

-- The bytes of `encodeLength` behind its guard. `(majorType << 5) | n` is a sum, since n < 32.
-- `Uint8Array.of` keeps a number modulo 256.
unfoldable pub length_bytes : ℕ → ℕ → Bytes
unfolding big_endian
length_bytes major value =
    if ltb value 24
    then (major * 32 + value) ∷ []
    else if leb value 0xff
    then (major * 32 + 24) ∷ value ∷ []
    else if leb value 0xffff
    then (major * 32 + 25) ∷ (value / 0x100) ∷ (value % 0x100) ∷ []
    else if leb value 0xffff_ffff
    then (major * 32 + 26)
      ∷ (value / 0x100_0000 % 0x100)
      ∷ (value / 0x1_0000 % 0x100)
      ∷ (value / 0x100 % 0x100)
      ∷ (value % 0x100)
      ∷ []
    else (major * 32 + 27) ∷ big_endian 8 value

unfoldable pub encode_length : ℕ → ℕ → Result EncodeError Bytes
encode_length major value = do
  refuse_if (ltb max_safe_integer value) EncodeError.length_out_of_range
  ok (length_bytes major value)

unfoldable pub encode_integer : ℤ → Result EncodeError Bytes
encode_integer z = do
  refuse_if (not (is_safe_integer z)) EncodeError.unsafe_integer
  elim z [ pos n ↦ encode_length 0 n | negsuc n ↦ encode_length 1 n ]

-- A header with the length, then the bytes: `encodeBytes` at 2, `encodeText` at 3.
unfoldable pub encode_string : ℕ → Bytes → Result EncodeError Bytes
encode_string major bs = do header ← encode_length major (length bs); ok (header ++ bs)

-- Less than, equal to or more than zero, as the bytewise lexicographic order.
unfoldable pub compare_bytes : Bytes → Bytes → ℤ
compare_bytes [] right = sub_ℕ 0 (length right)
compare_bytes (x ∷ left) [] = pos (suc (length left))
compare_bytes (x ∷ left) (y ∷ right) = if x == y then compare_bytes left right else sub_ℕ x y

abbrev pub Pair : Type 0
Pair = Bytes × Bytes

-- The stable sort of the encoded entries by their encoded keys.
unfoldable pub insert_pair : Pair → List Pair → List Pair
insert_pair p [] = p ∷ []
insert_pair p (q ∷ qs) =
    if is_positive (compare_bytes p.0 q.0) then q ∷ insert_pair p qs else p ∷ q ∷ qs

unfoldable pub sort_pairs : List Pair → List Pair
sort_pairs [] = []
sort_pairs (p ∷ ps) = insert_pair p (sort_pairs ps)

-- The loop over neighbours of the sorted entries.
unfoldable pub has_duplicates : List Pair → Bool
has_duplicates [] = false
has_duplicates (p ∷ []) = false
has_duplicates (p ∷ q ∷ qs) = is_zero (compare_bytes p.0 q.0) || has_duplicates (q ∷ qs)

unfoldable pub concatenate_pairs : List Pair → Bytes
concatenate_pairs [] = []
concatenate_pairs ((k, v) ∷ ps) = k ++ (v ++ concatenate_pairs ps)

-- `encodeMap` behind the encoding of its entries.
unfoldable pub encode_pairs : List Pair → Result EncodeError Bytes
encode_pairs ps = do
  refuse_if (has_duplicates (sort_pairs ps)) EncodeError.duplicate_keys
  header ← encode_length 5 (length (sort_pairs ps))
  ok (header ++ concatenate_pairs (sort_pairs ps))

unfoldable mutual
  pub encode_value : Value → ℕ → Result EncodeError Bytes
  encode_value (bool b) depth = do
    refuse_if (ltb max_cbor_depth depth) EncodeError.depth_exceeded
    ok ((if b then 0xf5 else 0xf4) ∷ [])
  encode_value (num z) depth = do
    refuse_if (ltb max_cbor_depth depth) EncodeError.depth_exceeded
    encode_integer z
  encode_value fraction depth = do
    refuse_if (ltb max_cbor_depth depth) EncodeError.depth_exceeded
    err EncodeError.unsafe_integer
  encode_value (text s) depth = do
    refuse_if (ltb max_cbor_depth depth) EncodeError.depth_exceeded
    encode_string 3 (utf8_encode s)
  encode_value (bytes bs) depth = do
    refuse_if (ltb max_cbor_depth depth) EncodeError.depth_exceeded
    encode_string 2 bs
  encode_value (array vs) depth = do
    refuse_if (ltb max_cbor_depth depth) EncodeError.depth_exceeded
    refuse_if (ltb max_cbor_items (count_items vs)) EncodeError.array_too_long
    header ← encode_length 4 (count_items vs)
    body ← encode_items vs (depth + 1)
    ok (header ++ body)
  encode_value (mapping es) depth = do
    refuse_if (ltb max_cbor_depth depth) EncodeError.depth_exceeded
    refuse_if (ltb max_cbor_items (count_entries es)) EncodeError.map_too_long
    ps ← encode_entries es (depth + 1)
    encode_pairs ps
  encode_value (object fs) depth = do
    refuse_if (ltb max_cbor_depth depth) EncodeError.depth_exceeded
    refuse_if (ltb max_cbor_items (count_fields fs)) EncodeError.map_too_long
    ps ← encode_fields fs (depth + 1)
    encode_pairs ps
  encode_value unsupported depth = do
    refuse_if (ltb max_cbor_depth depth) EncodeError.depth_exceeded
    err EncodeError.unsupported_value

  pub encode_items : Items → ℕ → Result EncodeError Bytes
  encode_items nil depth = ok []
  encode_items (cons v vs) depth = do
    first ← encode_value v depth
    others ← encode_items vs depth
    ok (first ++ others)

  pub encode_entries : Entries → ℕ → Result EncodeError (List Pair)
  encode_entries end depth = ok []
  encode_entries (entry k v es) depth = do
    key ← encode_value k depth
    value ← encode_value v depth
    others ← encode_entries es depth
    ok ((key, value) ∷ others)

  pub encode_fields : Fields → ℕ → Result EncodeError (List Pair)
  encode_fields done depth = ok []
  encode_fields (field k v fs) depth = do
    refuse_if (ltb max_cbor_depth depth) EncodeError.depth_exceeded
    key ← encode_string 3 (utf8_encode k)
    value ← encode_value v depth
    others ← encode_fields fs depth
    ok ((key, value) ∷ others)

unfoldable pub encode_deterministic_cbor : Value → Result EncodeError Bytes
encode_deterministic_cbor v = encode_value v 0

-- The whole encoder, for a run of it.
unfoldable pub encoder : Unit {0}
unfolding encode_deterministic_cbor encode_value encode_integer encode_string encode_pairs
    encode_length length_bytes sort_pairs insert_pair has_duplicates concatenate_pairs compare_bytes
    utf8_encode
encoder = tt
