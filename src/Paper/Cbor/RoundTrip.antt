-- ===== src/Paper/Cbor/RoundTrip.antt =====
-- The encoder and the decoder of cbor.ts together.
use credaryn.Base.{
  append-nil, le→ltb_false, zero, subst, >>=-eq-ok, suc, ◌+◌, ◌∷◌, [], List, ℕ, ◌≤◌, ◌≡◌, ◌++◌,
  append_assoc, arith, length, ok,
}
use credaryn.Base.Text.{Bytes}
use credaryn.Paper.Cbor.{
  max_cbor_bytes, end, nil, unsupported, fraction, entry, cons, object, array, mapping, count_items,
  count_entries, max_cbor_depth, Items, Entries, Value, bool, num, text, bytes,
}
use credaryn.Paper.Cbor.Encode.{
  concatenate_pairs, encode_entries, Pair, encode_deterministic_cbor, encode_items, encode_value,
}
use credaryn.Paper.Cbor.Decode.{
  decode_deterministic_cbor, read_items, read_entries, read_value, read_initial,
}
use credaryn.Paper.Cbor.Canonical.{
  CanonicalEntries, CanonicalItems, encode_mapping-eq-ok, encode_array-eq-ok, IsCanonical,
}
use credaryn.Paper.Cbor.Encoded.{count_entries-le, count_items-le}
use credaryn.Paper.Cbor.Order.{Ascending}
use credaryn.Paper.Cbor.Readback.{
  AllFresh-cons, encode_key_of_ok, AllFresh, depth-le, fresh_nil, mapping_back, array_back,
  bytes_back, text_back, integer_back, bool_back,
}

mutual
  unfolding read_value encode_value encode_items encode_entries read_items read_entries
      concatenate_pairs

  pub read_initial-encode_value :
      (v : Value) (depth left : ℕ) (out rest : Bytes)
      → depth + left ≡ max_cbor_depth
      → IsCanonical v depth
      → encode_value v depth ≡ ok out
      → read_initial (read_value left) (out ++ rest) ≡ ok (v, rest)
  read_initial-encode_value (bool b) depth left out rest e c h =
      bool_back (read_value left) b depth out rest h
  read_initial-encode_value (num z) depth left out rest e c h =
      integer_back (read_value left) z out rest (ground arith)
  read_initial-encode_value fraction depth left out rest e c h = absurd (ground arith)
  read_initial-encode_value (text s) depth left out rest e c h =
      text_back (read_value left) s out rest c (ground arith)
  read_initial-encode_value (bytes bs) depth left out rest e c h =
      bytes_back (read_value left) bs out rest (ground arith)
  read_initial-encode_value (array vs) depth left out rest e c h =
      let (body, p, o, l) = encode_array-eq-ok vs depth out h in
      array_back (read_value left) vs out body rest o l (count_items-le vs (depth + 1) body p)
        (read_items-encode_items vs (depth + 1) left body rest (omega arith) c p)
  read_initial-encode_value (mapping es) depth left out rest e c h =
      let (ps, p, a, o, l) = encode_mapping-eq-ok es depth out c h in
      mapping_back (read_value left) es out (concatenate_pairs ps) rest o l
        (count_entries-le es (depth + 1) ps p)
        (read_entries-encode_entries es (depth + 1) left [] ps rest (omega arith) c.0 p a
          (fresh_nil ps))
  read_initial-encode_value (object fs) depth left out rest e c h = absurd c
  read_initial-encode_value unsupported depth left out rest e c h = absurd (ground arith)

  read_items-encode_items :
      (vs : Items) (depth left : ℕ) (out rest : Bytes)
      → depth + left ≡ max_cbor_depth + 1
      → CanonicalItems vs depth
      → encode_items vs depth ≡ ok out
      → read_items (read_value left) (count_items vs) (out ++ rest) ≡ ok (vs, rest)
  read_items-encode_items nil depth left out rest e c h = ground arith
  read_items-encode_items (cons v vs) depth zero out rest e c h =
      let (first, p, h') = >>=-eq-ok (encode_value v depth) _ h in
      absurd (omega (arith, depth-le v depth first p))
  read_items-encode_items (cons v vs) depth (suc left) out rest e (c, cs) h =
      let (first, p, h') = >>=-eq-ok (encode_value v depth) _ h in
      let (others, q, h'') = >>=-eq-ok (encode_items vs depth) _ h' in
      let o : out ≡ first ++ others = ground arith in
      rw (
        o,
        append_assoc first others rest,
        read_initial-encode_value v depth left first (others ++ rest) (omega arith) c p,
        read_items-encode_items vs depth (suc left) others rest e cs q,
      )

  read_entries-encode_entries :
      (es : Entries) (depth left : ℕ) (seen : List Bytes) (ps : List Pair) (rest : Bytes)
      → depth + left ≡ max_cbor_depth + 1
      → CanonicalEntries es depth
      → encode_entries es depth ≡ ok ps
      → Ascending ps
      → AllFresh seen ps
      → read_entries (read_value left) (count_entries es) seen (concatenate_pairs ps ++ rest)
        ≡ ok (es, rest)
  read_entries-encode_entries end depth left seen ps rest e c h a f = ground arith
  read_entries-encode_entries (entry k v es) depth zero seen ps rest e c h a f =
      let (first, p, h') = >>=-eq-ok (encode_value k depth) _ h in
      absurd (omega (arith, depth-le k depth first p))
  read_entries-encode_entries (entry k v es) depth (suc left) seen ps rest e (ck, cv, cs) h a f =
      let (key, p, h') = >>=-eq-ok (encode_value k depth) _ h in
      let (value, q, h'') = >>=-eq-ok (encode_value v depth) _ h' in
      let (others, r, h3) = >>=-eq-ok (encode_entries es depth) _ h'' in
      let o : ps ≡ (key, value) ∷ others = ground arith in
      let (before, a') = subst Ascending o a in
      let (fresh, f') = subst (AllFresh seen) o f in
      rw (
        o,
        append_assoc key (value ++ concatenate_pairs others) rest,
        append_assoc value (concatenate_pairs others) rest,
        read_initial-encode_value k depth left key _ (omega arith) ck p,
        read_initial-encode_value v depth left value _ (omega arith) cv q,
        encode_key_of_ok k depth key p,
        fresh,
        read_entries-encode_entries es depth (suc left) (key ∷ seen) others rest e cs r a'
            (AllFresh-cons (key, value) seen others before f'),
      )

-- A canonical value (text with neither a lone surrogate nor a leading byte order mark, maps in the
-- order of their encoded keys, no plain object) that is encoded to at most 4096 bytes is decoded
-- from them unchanged.
pub decode_cbor-encode_cbor :
    (v : Value) (out : Bytes)
    → IsCanonical v 0
    → encode_deterministic_cbor v ≡ ok out
    → length out ≤ max_cbor_bytes
    → decode_deterministic_cbor out ≡ ok v
unfolding encode_deterministic_cbor decode_deterministic_cbor read_value
decode_cbor-encode_cbor v out c h l =
    let back : read_initial (read_value max_cbor_depth) (out ++ []) ≡ ok (v, []) =
      read_initial-encode_value v 0 max_cbor_depth out [] (omega arith) c h in
    rw (le→ltb_false _ _ l, rw append-nil at back)
