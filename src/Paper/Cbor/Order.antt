-- ===== src/Paper/Cbor/Order.antt =====
-- The order of map entries in cbor.ts: what is in order already is left by the sort.
use credaryn.Base.{
  ◌≡◌, refl, ap, inl, inr, true, false, List, [], ◌∷◌, arith, Bool-cases, All, ℤ, pos, negsuc,
  is_negative, is_zero, is_positive,
}
use credaryn.Base.Text.{Bytes, list_eq, list_eq→eq}
use credaryn.Paper.Cbor.Encode.{Pair, compare_bytes, insert_pair, sort_pairs, has_duplicates}

-- The key of the first pair comes strictly before that of the second.
abbrev pub Before : Pair → Pair → Type 0
Before p q = is_negative (compare_bytes p.0 q.0) ≡ true

abbrev pub Ascending : List Pair → Type 0
Ascending [] = Unit
Ascending (p ∷ ps) = All (Before p) ps × Ascending ps

pub compare_bytes_self : (x : Bytes) → compare_bytes x x ≡ pos 0
unfolding compare_bytes
compare_bytes_self [] = refl
compare_bytes_self (b ∷ x) = ground (arith, compare_bytes_self x)

pub list_eq_of_negative :
    (x y : Bytes) → is_negative (compare_bytes x y) ≡ true → list_eq x y ≡ false
list_eq_of_negative x y h = elim (Bool-cases (list_eq x y)) [
  | inl same ↦ cc (
    ap (λ (z : Bytes). is_negative (compare_bytes z y)) (list_eq→eq x y same),
    ap is_negative (compare_bytes_self y),
  )
  | inr other ↦ other
]

not_positive : (z : ℤ) → is_negative z ≡ true → is_positive z ≡ false
not_positive (pos n) h = cc
not_positive (negsuc n) h = refl

not_zero : (z : ℤ) → is_negative z ≡ true → is_zero z ≡ false
not_zero (pos n) h = cc
not_zero (negsuc n) h = refl

insert_pair-Ascending : (p : Pair) (ps : List Pair) → All (Before p) ps → insert_pair p ps ≡ p ∷ ps
unfolding insert_pair
insert_pair-Ascending p [] h = refl
insert_pair-Ascending p (q ∷ ps) (h, hs) = rw (not_positive _ h)

pub sort_pairs-Ascending : (ps : List Pair) → Ascending ps → sort_pairs ps ≡ ps
unfolding sort_pairs
sort_pairs-Ascending [] h = refl
sort_pairs-Ascending (p ∷ ps) (h, hs) =
    rw (sort_pairs-Ascending ps hs) (insert_pair-Ascending p ps h)

pub has_duplicates-Ascending : (ps : List Pair) → Ascending ps → has_duplicates ps ≡ false
unfolding has_duplicates
has_duplicates-Ascending [] h = refl
has_duplicates-Ascending (p ∷ []) h = refl
has_duplicates-Ascending (p ∷ q ∷ ps) ((h, _), hs) =
    rw (not_zero _ h) (has_duplicates-Ascending (q ∷ ps) hs)
