-- ===== src/Paper/Cbor/Determinism.antt =====
-- cbor.ts: the encoding of maps and the insertion order of their entries.
use credaryn.Paper.Cbor.{EncodeError, max_cbor_items, mapping, entry, Value, count_entries, Entries}
use credaryn.Paper.Cbor.Encode.{
  Pair, sort_pairs, encode_value, encode_entries, encode_pairs, encode_deterministic_cbor,
}
use credaryn.Base.{
  sym, subst, refl, arith, ltb, ◌∙◌, ◌∷◌, inr, refuse_if, suc, inl, >>=-eq-ok, ap, ok, ◌≡◌, ℕ, List,
}
use credaryn.Base.Text.{Bytes}
use credaryn.Paper.Cbor.Sorting.{Similar-trans, insert_pair_swap, Similar-insert, Similar}

-- The entries of two maps that differ in their insertion order.
pub data Rearranged : Entries → Entries → Type 0 where
  same : {es : Entries} → Rearranged es es
  skip :
      {k v : Value} {es fs : Entries} → Rearranged es fs → Rearranged (entry k v es) (entry k v fs)
  swap :
      {k v k' v' : Value} {es : Entries}
      → Rearranged (entry k v (entry k' v' es)) (entry k' v' (entry k v es))
  join : {es fs gs : Entries} → Rearranged es fs → Rearranged fs gs → Rearranged es gs

count_entries-Rearranged :
    {es fs : Entries} → Rearranged es fs → count_entries fs ≡ count_entries es
count_entries-Rearranged same = refl
count_entries-Rearranged (skip r) = ap suc (count_entries-Rearranged r)
count_entries-Rearranged swap = refl
count_entries-Rearranged (join r s) = count_entries-Rearranged s ∙ count_entries-Rearranged r

encode_entries_of_ok :
    (k v : Value) (es : Entries) (depth : ℕ) {key value : Bytes} {others : List Pair}
    → encode_value k depth ≡ ok key
    → encode_value v depth ≡ ok value
    → encode_entries es depth ≡ ok others
    → encode_entries (entry k v es) depth ≡ ok ((key, value) ∷ others)
unfolding encode_entries
encode_entries_of_ok k v es depth p q e = rw (p, q, e)

encode_entries-eq-ok :
    (k v : Value) (es : Entries) (depth : ℕ) (ps : List Pair)
    → encode_entries (entry k v es) depth ≡ ok ps
    → (key value : Bytes) × (others : List Pair) × (encode_value k depth ≡ ok key)
      × (encode_value v depth ≡ ok value)
      × (encode_entries es depth ≡ ok others)
      × (ps ≡ (key, value) ∷ others)
unfolding encode_entries
encode_entries-eq-ok k v es depth ps h =
    let (key, p, h') = >>=-eq-ok (encode_value k depth) _ h in
    let (value, q, h'') = >>=-eq-ok (encode_value v depth) _ h' in
    let (others, e, h3) = >>=-eq-ok (encode_entries es depth) _ h'' in
    (key, value, others, p, q, e, ground arith)

-- The encoded entries sort to the same list, or to lists with duplicates.
encode_entries-Rearranged :
    {es fs : Entries} (depth : ℕ) (ps : List Pair)
    → Rearranged es fs
    → encode_entries es depth ≡ ok ps
    → (qs : List Pair) × (encode_entries fs depth ≡ ok qs) × Similar (sort_pairs ps) (sort_pairs qs)
unfolding sort_pairs
encode_entries-Rearranged depth ps same h = (ps, h, inl refl)
encode_entries-Rearranged depth ps (skip {k} {v} {es} {fs} r) h =
    let (key, value, others, p, q, e, o) = encode_entries-eq-ok k v es depth ps h in
    let (moved, e', s) = encode_entries-Rearranged depth others r e in
    (
      (key, value) ∷ moved,
      encode_entries_of_ok k v fs depth p q e',
      subst (λ l. Similar (sort_pairs l) (sort_pairs ((key, value) ∷ moved))) (sym o)
          (Similar-insert (key, value) _ _ s),
    )
encode_entries-Rearranged depth ps (swap {k} {v} {k'} {v'} {es}) h =
    let (key, value, tail, p, q, e, o) = encode_entries-eq-ok k v (entry k' v' es) depth ps h in
    let (key', value', others, p', q', e', o') = encode_entries-eq-ok k' v' es depth tail e in
    (
      (key', value') ∷ (key, value) ∷ others,
      encode_entries_of_ok k' v' (entry k v es) depth p' q'
          (encode_entries_of_ok k v es depth p q e'),
      subst (λ l. Similar (sort_pairs l) (sort_pairs ((key', value') ∷ (key, value) ∷ others)))
          (sym (o ∙ ap (λ l. (key, value) ∷ l) o'))
          (insert_pair_swap (key, value) (key', value') (sort_pairs others)),
    )
encode_entries-Rearranged depth ps (join r s) h =
    let (qs, e, l) = encode_entries-Rearranged depth ps r h in
    let (rs, f, m) = encode_entries-Rearranged depth qs s e in (rs, f, Similar-trans _ _ _ l m)

encode_pairs-Similar :
    (ps qs : List Pair) (out : Bytes)
    → Similar (sort_pairs ps) (sort_pairs qs)
    → encode_pairs ps ≡ ok out
    → encode_pairs qs ≡ ok out
unfolding encode_pairs
encode_pairs-Similar ps qs out (inl e) h = rw (← e) h
encode_pairs-Similar ps qs out (inr (d, e)) h = absurd (ground arith)

encode_mapping_of_ok :
    (es : Entries) (ps : List Pair) (out : Bytes)
    → refuse_if (ltb max_cbor_items (count_entries es)) EncodeError.map_too_long ≡ ok tt
    → encode_entries es 1 ≡ ok ps
    → encode_pairs ps ≡ ok out
    → encode_value (mapping es) 0 ≡ ok out
unfolding encode_value
encode_mapping_of_ok es ps out g e h = rw (g, e) h

-- If a map is encoded, then a map with the same entries in any other insertion order is encoded to
-- the same bytes.
pub encode-Rearranged :
    (es fs : Entries) (out : Bytes)
    → Rearranged es fs
    → encode_deterministic_cbor (mapping es) ≡ ok out
    → encode_deterministic_cbor (mapping fs) ≡ ok out
unfolding encode_deterministic_cbor encode_value
encode-Rearranged es fs out r h =
    let (u, g, h1) =
      >>=-eq-ok (refuse_if (ltb max_cbor_items (count_entries es)) EncodeError.map_too_long) _ h in
    let (ps, e, h2) = >>=-eq-ok (encode_entries es 1) _ h1 in
    let (qs, e', s) = encode_entries-Rearranged 1 ps r e in
    encode_mapping_of_ok fs qs out (rw (count_entries-Rearranged r) g) e'
      (encode_pairs-Similar ps qs out s h2)
