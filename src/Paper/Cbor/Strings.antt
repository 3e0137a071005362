-- ===== src/Paper/Cbor/Strings.antt =====
-- Byte strings of cbor.ts: a header with the length, then the bytes.
use credaryn.Base.{
  ℕ, ◌≤◌, ◌≡◌, false, ◌++◌, arith, ltb, le→ltb_false, length, length-append, take-append,
  drop-append, ok, max_safe_integer,
}
use credaryn.Base.Text.{Bytes}
use credaryn.Paper.Cbor.{max_cbor_items}
use credaryn.Paper.Cbor.Encode.{length_bytes, encode_length, encode_string}
use credaryn.Paper.Cbor.Decode.{read_item_count, read_byte_string_length, read_bytes, read_string}
use credaryn.Paper.Cbor.Heads.{additional_of, extension, read_length-extension}

pub encode_length-eq-ok :
    (major n : ℕ) (out : Bytes)
    → encode_length major n ≡ ok out
    → (n ≤ max_safe_integer) × (out ≡ length_bytes major n)
unfolding encode_length
encode_length-eq-ok major n out h = ground arith

pub encode_string-eq-ok :
    (major : ℕ) (bs out : Bytes)
    → encode_string major bs ≡ ok out
    → (length bs ≤ max_safe_integer) × (out ≡ length_bytes major (length bs) ++ bs)
unfolding encode_string encode_length
encode_string-eq-ok major bs out h = ground arith

pub read_string-extension :
    (bs rest : Bytes)
    → length bs ≤ max_safe_integer
    → read_string (additional_of (length bs)) (extension (length bs) ++ (bs ++ rest))
      ≡ ok (bs, rest)
unfolding read_string read_byte_string_length read_bytes
read_string-extension bs rest h =
    let short : ltb (length (bs ++ rest)) (length bs) ≡ false =
      rw (length-append bs rest) (le→ltb_false _ _ (omega arith)) in
    rw (
      read_length-extension (length bs) (bs ++ rest) h,
      short,
      short,
      take-append bs rest,
      drop-append bs rest,
    )

pub read_item_count-extension :
    (n : ℕ) (rest : Bytes)
    → n ≤ max_cbor_items
    → n ≤ length rest
    → read_item_count (additional_of n) (extension n ++ rest) ≡ ok (n, rest)
unfolding read_item_count
read_item_count-extension n rest h k =
    rw (read_length-extension n rest (omega arith), le→ltb_false _ _ h, le→ltb_false _ _ k)
