-- ===== src/Paper/Cbor/Readback.antt =====
-- The readers of cbor.ts on what the encoder writes for one value.
use credaryn.Base.{
  refl, length-append, false, ◌∷◌, All, [], List, ℕ, ◌≤◌, ◌≡◌, Bool, ◌++◌, append_assoc, arith,
  length, ok, ℤ, pos, negsuc, max_safe_integer,
}
use credaryn.Base.Text.{Text, Bytes}
use credaryn.Base.Utf8.{utf8_encode}
use credaryn.Base.Utf8.RoundTrip.{IsPlain, utf8_decode-utf8_encode}
use credaryn.Paper.Cbor.{
  array, mapping, max_cbor_items, count_items, count_entries, max_cbor_depth, Items, Entries, Value,
  bool, num, text, bytes,
}
use credaryn.Paper.Cbor.Encode.{
  Pair, encode_deterministic_cbor, encode_value, encode_length, encode_string, encode_integer,
  length_bytes,
}
use credaryn.Paper.Cbor.Decode.{
  read_items, read_entries, is_seen, encode_key, Reader, read_initial, read_byte, read_major,
  text_of,
}
use credaryn.Paper.Cbor.Strings.{
  read_item_count-extension, encode_string-eq-ok, read_string-extension,
}
use credaryn.Paper.Cbor.Heads.{read_length-extension, read_initial-length_bytes}
use credaryn.Paper.Cbor.Encoded.{encode_at_top}
use credaryn.Paper.Cbor.Order.{list_eq_of_negative, Before}

pub text_of-utf8_encode : (s : Text) → IsPlain s → text_of (utf8_encode s) ≡ ok (text s)
unfolding text_of
text_of-utf8_encode s c = rw (utf8_decode-utf8_encode s c, text_of)

module _ (read : Reader Value) where
  pub bool_back :
      (b : Bool) (depth : ℕ) (out rest : Bytes)
      → encode_value (bool b) depth ≡ ok out
      → read_initial read (out ++ rest) ≡ ok (bool b, rest)
  unfolding encode_value read_initial read_byte read_major
  bool_back b depth out rest h = ground arith

  pub integer_back :
      (z : ℤ) (out rest : Bytes)
      → encode_integer z ≡ ok out
      → read_initial read (out ++ rest) ≡ ok (num z, rest)
  unfolding encode_integer encode_length read_major
  integer_back (pos n) out rest h =
      let o : out ≡ length_bytes 0 n = ground arith in
      let l : n ≤ max_safe_integer = ground arith in
      rw (o, read_initial-length_bytes read 0 n rest (omega arith), read_length-extension n rest l)
  integer_back (negsuc n) out rest h =
      let o : out ≡ length_bytes 1 n = ground arith in
      let l : n ≤ max_safe_integer = ground arith in
      rw (o, read_initial-length_bytes read 1 n rest (omega arith), read_length-extension n rest l)

  pub bytes_back :
      (bs out rest : Bytes)
      → encode_string 2 bs ≡ ok out
      → read_initial read (out ++ rest) ≡ ok (bytes bs, rest)
  unfolding read_major
  bytes_back bs out rest h =
      let (l, o) = encode_string-eq-ok 2 bs out h in
      rw (
        o,
        append_assoc (length_bytes 2 (length bs)) bs rest,
        read_initial-length_bytes read 2 (length bs) (bs ++ rest) (omega arith),
        read_string-extension bs rest l,
      )

  pub text_back :
      (s : Text) (out rest : Bytes)
      → IsPlain s
      → encode_string 3 (utf8_encode s) ≡ ok out
      → read_initial read (out ++ rest) ≡ ok (text s, rest)
  unfolding read_major
  text_back s out rest c h =
      let (l, o) = encode_string-eq-ok 3 (utf8_encode s) out h in
      rw (
        o,
        append_assoc (length_bytes 3 (length (utf8_encode s))) (utf8_encode s) rest,
        read_initial-length_bytes read 3 (length (utf8_encode s)) (utf8_encode s ++ rest)
            (omega arith),
        read_string-extension (utf8_encode s) rest l,
        text_of-utf8_encode s c,
      )

-- None of the keys is among those that are seen.
abbrev pub AllFresh : List Bytes → List Pair → Type 0
AllFresh seen = All (λ p. is_seen p.0 seen ≡ false)

pub AllFresh-cons :
    (p : Pair) (seen : List Bytes) (ps : List Pair)
    → All (Before p) ps
    → AllFresh seen ps
    → AllFresh (p.0 ∷ seen) ps
unfolding is_seen
AllFresh-cons p seen [] h k = tt
AllFresh-cons p seen (q ∷ ps) (h, hs) (k, ks) =
    (rw (list_eq_of_negative p.0 q.0 h) k, AllFresh-cons p seen ps hs ks)

pub encode_key_of_ok :
    (k : Value) (depth : ℕ) (out : Bytes) → encode_value k depth ≡ ok out → encode_key k ≡ ok out
unfolding encode_key encode_deterministic_cbor
encode_key_of_ok k depth out h = rw (encode_at_top k depth h, encode_key)

pub depth-le :
    (v : Value) (depth : ℕ) (out : Bytes) → encode_value v depth ≡ ok out → depth ≤ max_cbor_depth
unfolding encode_value
depth-le (bool b) depth out h = ground arith
depth-le v depth out h = ground arith

pub fresh_nil : (ps : List Pair) → AllFresh [] ps
unfolding is_seen
fresh_nil [] = tt
fresh_nil (p ∷ ps) = (refl, fresh_nil ps)

module _ (read : Reader Value) where
  pub array_back :
      (vs : Items) (out body rest : Bytes)
      → out ≡ length_bytes 4 (count_items vs) ++ body
      → count_items vs ≤ max_cbor_items
      → count_items vs ≤ length body
      → read_items read (count_items vs) (body ++ rest) ≡ ok (vs, rest)
      → read_initial read (out ++ rest) ≡ ok (array vs, rest)
  unfolding read_major
  array_back vs out body rest o l k h = rw (
    o,
    append_assoc (length_bytes 4 (count_items vs)) body rest,
    read_initial-length_bytes read 4 (count_items vs) (body ++ rest) (omega arith),
    read_item_count-extension (count_items vs) (body ++ rest) l
        (rw (length-append body rest) (omega arith)),
    h,
  )

  pub mapping_back :
      (es : Entries) (out body rest : Bytes)
      → out ≡ length_bytes 5 (count_entries es) ++ body
      → count_entries es ≤ max_cbor_items
      → count_entries es ≤ length body
      → read_entries read (count_entries es) [] (body ++ rest) ≡ ok (es, rest)
      → read_initial read (out ++ rest) ≡ ok (mapping es, rest)
  unfolding read_major
  mapping_back es out body rest o l k h = rw (
    o,
    append_assoc (length_bytes 5 (count_entries es)) body rest,
    read_initial-length_bytes read 5 (count_entries es) (body ++ rest) (omega arith),
    read_item_count-extension (count_entries es) (body ++ rest) l
        (rw (length-append body rest) (omega arith)),
    h,
  )
