-- ===== src/Paper/Cbor/Encoded.antt =====
-- The encodings of cbor.ts: the depth they are made at, and how long they are.
use credaryn.Base.{
  ℕ, ◌+◌, ◌≤◌, ◌≡◌, inl, inr, List, ◌++◌, arith, ltb, length, length-append, ok, refuse_if,
  Result-cases, >>=-eq-ok, pos, negsuc,
}
use credaryn.Base.Text.{Bytes}
use credaryn.Base.Utf8.{utf8_encode}
use credaryn.Paper.Cbor.{
  Value, bool, num, fraction, text, bytes, array, mapping, object, unsupported, Items, nil, cons,
  Entries, end, entry, Fields, done, field, count_items, count_entries, max_cbor_depth, EncodeError,
}
use credaryn.Paper.Cbor.Encode.{
  encode_pairs, encode_length, encode_string, concatenate_pairs, Pair, encode_value, encode_items,
  encode_entries, encode_fields, encode_pairs, encode_length, encode_string, length_bytes,
  concatenate_pairs,
}
use credaryn.Paper.Cbor.Heads.{length_bytes-cons}
use credaryn.Paper.Cbor.Encode.{sort_pairs, encode_integer, encode_string}
use credaryn.Paper.Cbor.Canonical.{encode_array-eq-ok}

mutual
  unfolding encode_value

  encode_value-lower :
      (v : Value) (d e : ℕ) {out : Bytes}
      → e ≤ d
      → encode_value v d ≡ ok out
      → encode_value v e ≡ ok out
  encode_value-lower (bool b) d e l h = ground arith
  encode_value-lower (num z) d e l h = ground arith
  encode_value-lower fraction d e l h = ground arith
  encode_value-lower (text s) d e l h = ground arith
  encode_value-lower (bytes bs) d e l h = ground arith
  encode_value-lower (array vs) d e l h = elim (Result-cases (encode_items vs (d + 1))) [
    | inl (body, p) ↦ ground (arith, p, encode_items-lower vs (d + 1) (e + 1) (omega arith) p)
    | inr (x, p) ↦ absurd (ground arith)
  ]
  encode_value-lower (mapping es) d e l h = elim (Result-cases (encode_entries es (d + 1))) [
    | inl (body, p) ↦ ground (arith, p, encode_entries-lower es (d + 1) (e + 1) (omega arith) p)
    | inr (x, p) ↦ absurd (ground arith)
  ]
  encode_value-lower (object fs) d e l h = elim (Result-cases (encode_fields fs (d + 1))) [
    | inl (body, p) ↦ ground (arith, p, encode_fields-lower fs (d + 1) (e + 1) (omega arith) p)
    | inr (x, p) ↦ absurd (ground arith)
  ]
  encode_value-lower unsupported d e l h = ground arith

  encode_items-lower :
      (vs : Items) (d e : ℕ) {out : Bytes}
      → e ≤ d
      → encode_items vs d ≡ ok out
      → encode_items vs e ≡ ok out
  encode_items-lower nil d e l h = h
  encode_items-lower (cons v vs) d e l h =
      let (first, p, h') = >>=-eq-ok (encode_value v d) _ h in
      let (others, q, h'') = >>=-eq-ok (encode_items vs d) _ h' in
      rw (encode_value-lower v d e l p, encode_items-lower vs d e l q) h''

  encode_entries-lower :
      (es : Entries) (d e : ℕ) {out : List Pair}
      → e ≤ d
      → encode_entries es d ≡ ok out
      → encode_entries es e ≡ ok out
  encode_entries-lower end d e l h = h
  encode_entries-lower (entry k v es) d e l h =
      let (key, p, h') = >>=-eq-ok (encode_value k d) _ h in
      let (value, q, h'') = >>=-eq-ok (encode_value v d) _ h' in
      let (others, r, h3) = >>=-eq-ok (encode_entries es d) _ h'' in
      rw
        (
          encode_value-lower k d e l p,
          encode_value-lower v d e l q,
          encode_entries-lower es d e l r,
        )
        h3

  encode_fields-lower :
      (fs : Fields) (d e : ℕ) {out : List Pair}
      → e ≤ d
      → encode_fields fs d ≡ ok out
      → encode_fields fs e ≡ ok out
  encode_fields-lower done d e l h = h
  encode_fields-lower (field k v fs) d e l h =
      let (u, g, h') =
        >>=-eq-ok (refuse_if (ltb max_cbor_depth d) EncodeError.depth_exceeded) _ h in
      let (key, p, h'') = >>=-eq-ok (encode_string 3 (utf8_encode k)) _ h' in
      let (value, q, h3) = >>=-eq-ok (encode_value v d) _ h'' in
      let (others, r, h4) = >>=-eq-ok (encode_fields fs d) _ h3 in
      let g' : refuse_if (ltb max_cbor_depth e) EncodeError.depth_exceeded ≡ ok tt = ground arith in
      rw (g', p, encode_value-lower v d e l q, encode_fields-lower fs d e l r) h4

pub encode_at_top :
    (v : Value) (depth : ℕ) {out : Bytes}
    → encode_value v depth ≡ ok out
    → encode_value v 0 ≡ ok out
encode_at_top v depth h = encode_value-lower v depth 0 (omega arith) h

length_bytes-pos : (major n : ℕ) (bs : Bytes) → 1 ≤ length (length_bytes major n ++ bs)
length_bytes-pos major n bs = rw (length_bytes-cons major n) (omega arith)

encode_pairs-pos : (ps : List Pair) (out : Bytes) → encode_pairs ps ≡ ok out → 1 ≤ length out
unfolding encode_pairs encode_length
encode_pairs-pos ps out h =
    ground (arith, length_bytes-pos 5 (length (sort_pairs ps)) (concatenate_pairs (sort_pairs ps)))

-- An encoding has a byte at least.
pub encode_value-pos :
    (v : Value) (depth : ℕ) (out : Bytes) → encode_value v depth ≡ ok out → 1 ≤ length out
unfolding encode_value encode_integer encode_string encode_length
encode_value-pos (bool b) depth out h = ground arith
encode_value-pos (num (pos n)) depth out h = ground (arith, length_bytes-cons 0 n)
encode_value-pos (num (negsuc n)) depth out h = ground (arith, length_bytes-cons 1 n)
encode_value-pos (text s) depth out h =
    ground (arith, length_bytes-pos 3 (length (utf8_encode s)) (utf8_encode s))
encode_value-pos (bytes bs) depth out h = ground (arith, length_bytes-pos 2 (length bs) bs)
encode_value-pos (array vs) depth out h =
    let (body, e, o, l) = encode_array-eq-ok vs depth out h in
    rw o (length_bytes-pos 4 (count_items vs) body)
encode_value-pos (mapping es) depth out h = elim (Result-cases (encode_entries es (depth + 1))) [
  | inl (ps, e) ↦ encode_pairs-pos ps out (ground arith)
  | inr (x, e) ↦ absurd (ground arith)
]
encode_value-pos (object fs) depth out h = elim (Result-cases (encode_fields fs (depth + 1))) [
  | inl (ps, e) ↦ encode_pairs-pos ps out (ground arith)
  | inr (x, e) ↦ absurd (ground arith)
]
encode_value-pos fraction depth out h = ground arith
encode_value-pos unsupported depth out h = ground arith

pub count_items-le :
    (vs : Items) (depth : ℕ) (out : Bytes)
    → encode_items vs depth ≡ ok out
    → count_items vs ≤ length out
unfolding encode_items
count_items-le nil depth out h = omega arith
count_items-le (cons v vs) depth out h =
    let (first, p, h') = >>=-eq-ok (encode_value v depth) _ h in
    let (others, q, h'') = >>=-eq-ok (encode_items vs depth) _ h' in
    ground (
      arith,
      h'',
      encode_value-pos v depth first p,
      count_items-le vs depth others q,
      length-append first others,
    )

pub count_entries-le :
    (es : Entries) (depth : ℕ) (ps : List Pair)
    → encode_entries es depth ≡ ok ps
    → count_entries es ≤ length (concatenate_pairs ps)
unfolding encode_entries concatenate_pairs
count_entries-le end depth ps h = omega arith
count_entries-le (entry k v es) depth ps h =
    let (key, p, h') = >>=-eq-ok (encode_value k depth) _ h in
    let (value, q, h'') = >>=-eq-ok (encode_value v depth) _ h' in
    let (others, r, h3) = >>=-eq-ok (encode_entries es depth) _ h'' in
    ground (
      arith,
      h3,
      encode_value-pos k depth key p,
      count_entries-le es depth others r,
      length-append key (value ++ concatenate_pairs others),
      length-append value (concatenate_pairs others),
    )
