-- ===== src/Paper/Cbor/Canonical.antt =====
-- The values that cbor.ts can give back as they were, and what their encodings look like.
use credaryn.Base.{
  ℕ, ◌+◌, ◌≤◌, ◌≡◌, subst, inl, inr, List, ◌++◌, arith, length, Result, ok, err, Result-cases,
}
use credaryn.Base.Text.{Bytes}
use credaryn.Base.Utf8.RoundTrip.{IsPlain}
use credaryn.Paper.Cbor.{
  Value, bool, num, fraction, text, bytes, array, mapping, object, unsupported, Items, nil, cons,
  Entries, end, entry, count_items, count_entries, EncodeError,
}
use credaryn.Paper.Cbor.Encode.{
  encode_pairs, encode_length, concatenate_pairs, Pair, encode_value, encode_items, encode_entries,
  encode_pairs, encode_length, length_bytes, concatenate_pairs,
}
use credaryn.Paper.Cbor.Order.{Ascending, sort_pairs-Ascending}

abbrev pub InOrder : Result EncodeError (List Pair) → Type 0
InOrder (ok ps) = Ascending ps
InOrder (err e) = Unit

-- Text without a byte order mark or a lone surrogate, and maps in the order of their encoded keys.
-- Plain objects are read back as maps, so they are not among these values.
abbrev mutual
  pub IsCanonical : Value → ℕ → Type 0
  IsCanonical (bool b) depth = Unit
  IsCanonical (num z) depth = Unit
  IsCanonical fraction depth = Unit
  IsCanonical (text s) depth = IsPlain s
  IsCanonical (bytes bs) depth = Unit
  IsCanonical (array vs) depth = CanonicalItems vs (depth + 1)
  IsCanonical (mapping es) depth =
      CanonicalEntries es (depth + 1) × InOrder (encode_entries es (depth + 1))
  IsCanonical (object fs) depth = ⊥
  IsCanonical unsupported depth = Unit

  pub CanonicalItems : Items → ℕ → Type 0
  CanonicalItems nil depth = Unit
  CanonicalItems (cons v vs) depth = IsCanonical v depth × CanonicalItems vs depth

  pub CanonicalEntries : Entries → ℕ → Type 0
  CanonicalEntries end depth = Unit
  CanonicalEntries (entry k v es) depth =
      IsCanonical k depth × IsCanonical v depth × CanonicalEntries es depth

pub encode_array-eq-ok :
    (vs : Items) (depth : ℕ) (out : Bytes)
    → encode_value (array vs) depth ≡ ok out
    → (body : Bytes) × (encode_items vs (depth + 1) ≡ ok body)
      × (out ≡ length_bytes 4 (count_items vs) ++ body)
      × (count_items vs ≤ 256)
unfolding encode_value encode_length
encode_array-eq-ok vs depth out h = elim (Result-cases (encode_items vs (depth + 1))) [
  | inl (body, e) ↦ (body, e, ground arith, ground arith)
  | inr (x, e) ↦ absurd (ground arith)
]

-- The bytes of a map whose encoded entries are in order.
pub encode_pairs-Ascending :
    (ps : List Pair) (out : Bytes)
    → Ascending ps
    → encode_pairs ps ≡ ok out
    → out ≡ length_bytes 5 (length ps) ++ concatenate_pairs ps
unfolding encode_pairs encode_length
encode_pairs-Ascending ps out a h = ground (arith, sort_pairs-Ascending ps a)

pub length-encode_entries :
    (es : Entries) (depth : ℕ) (ps : List Pair)
    → encode_entries es depth ≡ ok ps
    → length ps ≡ count_entries es
unfolding encode_entries
length-encode_entries end depth ps h = ground arith
length-encode_entries (entry k v es) depth ps h = elim (Result-cases (encode_entries es depth)) [
  | inl (qs, e) ↦ ground (arith, length-encode_entries es depth qs e)
  | inr (x, e) ↦ absurd (ground arith)
]

pub encode_mapping-eq-ok :
    (es : Entries) (depth : ℕ) (out : Bytes)
    → IsCanonical (mapping es) depth
    → encode_value (mapping es) depth ≡ ok out
    → (ps : List Pair) × (encode_entries es (depth + 1) ≡ ok ps)
      × Ascending ps
      × (out ≡ length_bytes 5 (count_entries es) ++ concatenate_pairs ps)
      × (count_entries es ≤ 256)
unfolding encode_value
encode_mapping-eq-ok es depth out c h = elim (Result-cases (encode_entries es (depth + 1))) [
  | inl (ps, e) ↦
      let a : Ascending ps = subst InOrder e c.1 in
      let p : encode_pairs ps ≡ ok out = ground arith in
      (
        ps,
        e,
        a,
        rw (← length-encode_entries es (depth + 1) ps e) (encode_pairs-Ascending ps out a p),
        ground arith,
      )
  | inr (x, e) ↦ absurd (ground arith)
]

-- A value that is encoded at some depth is encoded alike at the top.
