-- ===== src/Paper/Cbor/Sorting.antt =====
-- The sort of encoded map entries in cbor.ts, and entries in another order.
use credaryn.Paper.Cbor.Encode.{insert_pair, Pair, compare_bytes, has_duplicates}
use credaryn.Base.{
  ap, ◌∙◌, inr, inl, if◌then◌else◌, Bool-cases, refl, [], arith, is_negative, false, ◌∷◌,
  is_positive, is_zero, ◌⊎◌, true, Bool, ◌≡◌, List,
}
use credaryn.Base.Text.{Bytes}

-- `p` comes strictly after `q`.
abbrev after : Pair → Pair → Bool
after p q = is_positive (compare_bytes p.0 q.0)

positive_flip : (x y : Bytes) → is_positive (compare_bytes x y) ≡ is_negative (compare_bytes y x)
unfolding compare_bytes
positive_flip [] [] = refl
positive_flip [] (b ∷ y) = ground arith
positive_flip (a ∷ x) [] = ground arith
positive_flip (a ∷ x) (b ∷ y) = ground (arith, positive_flip x y)

positive_asym :
    (x y : Bytes) → is_positive (compare_bytes x y) ≡ true → is_positive (compare_bytes y x) ≡ false
unfolding compare_bytes
positive_asym [] [] h = refl
positive_asym [] (b ∷ y) h = ground arith
positive_asym (a ∷ x) [] h = ground arith
positive_asym (a ∷ x) (b ∷ y) h = ground (arith, positive_asym x y)

zero_of_not_positive :
    (x y : Bytes)
    → is_positive (compare_bytes x y) ≡ false
    → is_positive (compare_bytes y x) ≡ false
    → is_zero (compare_bytes x y) ≡ true
unfolding compare_bytes
zero_of_not_positive [] [] h k = refl
zero_of_not_positive [] (b ∷ y) h k = ground arith
zero_of_not_positive (a ∷ x) [] h k = ground arith
zero_of_not_positive (a ∷ x) (b ∷ y) h k = ground (arith, zero_of_not_positive x y)

-- From x ≤ y and y < z follows x < z.
positive_trans :
    (x y z : Bytes)
    → is_positive (compare_bytes x y) ≡ false
    → is_positive (compare_bytes z y) ≡ true
    → is_positive (compare_bytes z x) ≡ true
unfolding compare_bytes
positive_trans x [] [] h k = ground arith
positive_trans x (b ∷ y) [] h k = ground arith
positive_trans [] y (c ∷ z) h k = ground arith
positive_trans (a ∷ x) [] (c ∷ z) h k = ground arith
positive_trans (a ∷ x) (b ∷ y) (c ∷ z) h k = ground (arith, positive_trans x y z)

-- An element that stands before an equal one is not strictly before what comes after it.
positive_of_zero :
    (x y z : Bytes)
    → is_zero (compare_bytes x y) ≡ true
    → is_positive (compare_bytes z x) ≡ is_positive (compare_bytes z y)
unfolding compare_bytes
positive_of_zero [] [] z h = refl
positive_of_zero [] (b ∷ y) z h = ground arith
positive_of_zero (a ∷ x) [] z h = ground arith
positive_of_zero (a ∷ x) (b ∷ y) [] h = ground arith
positive_of_zero (a ∷ x) (b ∷ y) (c ∷ z) h = ground (arith, positive_of_zero x y z)

abbrev pub Similar : List Pair → List Pair → Type 0
Similar l m = (l ≡ m) ⊎ ((has_duplicates l ≡ true) × (has_duplicates m ≡ true))

has_duplicates-cons :
    (p : Pair) (l : List Pair) → has_duplicates l ≡ true → has_duplicates (p ∷ l) ≡ true
unfolding has_duplicates
has_duplicates-cons p [] h = cc
has_duplicates-cons p (q ∷ l) h = ground arith

has_duplicates-insert :
    (p : Pair) (l : List Pair) → has_duplicates l ≡ true → has_duplicates (insert_pair p l) ≡ true
unfolding has_duplicates insert_pair
has_duplicates-insert p [] h = cc
has_duplicates-insert p (x ∷ []) h = cc
has_duplicates-insert p (x ∷ y ∷ l) h =
    ground (arith, has_duplicates-insert p (y ∷ l), positive_of_zero x.0 y.0 p.0)

pub Similar-insert :
    (p : Pair) (l m : List Pair) → Similar l m → Similar (insert_pair p l) (insert_pair p m)
Similar-insert p l m (inl e) = inl (ap (insert_pair p) e)
Similar-insert p l m (inr (d, e)) = inr (has_duplicates-insert p l d, has_duplicates-insert p m e)

Similar-cons : (p : Pair) (l m : List Pair) → Similar l m → Similar (p ∷ l) (p ∷ m)
Similar-cons p l m (inl e) = inl (ap (λ k. p ∷ k) e)
Similar-cons p l m (inr (d, e)) = inr (has_duplicates-cons p l d, has_duplicates-cons p m e)

pub Similar-trans : (l m n : List Pair) → Similar l m → Similar m n → Similar l n
Similar-trans l m n (inl e) (inl f) = inl (e ∙ f)
Similar-trans l m n (inl e) (inr (d, f)) = inr (rw e d, f)
Similar-trans l m n (inr (d, f)) (inl e) = inr (d, rw (← e) f)
Similar-trans l m n (inr (d, f)) (inr (d', f')) = inr (d, f')

-- Two neighbours go in before `l` in either order.
heads_swap :
    (p q : Pair) (l : List Pair)
    → Similar
        (if after p q then q ∷ p ∷ l else p ∷ q ∷ l)
        (if after q p then p ∷ q ∷ l else q ∷ p ∷ l)
unfolding has_duplicates
heads_swap p q l = elim (Bool-cases (after p q)) [
  | inl a ↦ rw (a, positive_asym p.0 q.0 a) (inl refl)
  | inr a ↦ elim (Bool-cases (after q p)) [
    | inl b ↦ rw (a, b) (inl refl)
    | inr b ↦
        rw (a, b)
          (inr (
            rw (zero_of_not_positive p.0 q.0 a b) refl,
            rw (zero_of_not_positive q.0 p.0 b a) refl,
          ))
  ]
]

insert_pair-after :
    (p q : Pair) (l : List Pair) → after p q ≡ true → insert_pair p (q ∷ l) ≡ q ∷ insert_pair p l
unfolding insert_pair
insert_pair-after p q l h = rw h

insert_pair-before :
    (p q : Pair) (l : List Pair) → after p q ≡ false → insert_pair p (q ∷ l) ≡ p ∷ q ∷ l
unfolding insert_pair
insert_pair-before p q l h = rw h

insert_pair_step :
    (p q : Pair) (l : List Pair)
    → insert_pair p (q ∷ l) ≡ (if after p q then q ∷ insert_pair p l else p ∷ q ∷ l)
unfolding insert_pair
insert_pair_step p q l = refl

insert_pair_neighbours :
    (p q y : Pair) (l : List Pair)
    → after p y ≡ false
    → after q y ≡ false
    → Similar (insert_pair p (q ∷ y ∷ l)) (insert_pair q (p ∷ y ∷ l))
insert_pair_neighbours p q y l a b =
    rw
      (
        insert_pair_step p q (y ∷ l),
        insert_pair_step q p (y ∷ l),
        insert_pair-before p y l a,
        insert_pair-before q y l b,
      )
      (heads_swap p q (y ∷ l))

-- Two insertions in either order give the same list, or two lists with a duplicate.
pub insert_pair_swap :
    (p q : Pair) (l : List Pair)
    → Similar (insert_pair p (insert_pair q l)) (insert_pair q (insert_pair p l))
insert_pair_swap p q [] = unfold insert_pair in heads_swap p q []
insert_pair_swap p q (y ∷ l) = elim (Bool-cases (after p y)) [
  | inl a ↦ elim (Bool-cases (after q y)) [
    | inl b ↦
        rw
          (
            insert_pair-after p y l a,
            insert_pair-after q y l b,
            insert_pair-after p y (insert_pair q l) a,
            insert_pair-after q y (insert_pair p l) b,
          )
          (Similar-cons y _ _ (insert_pair_swap p q l))
    | inr b ↦
        rw
          (
            insert_pair-after p y l a,
            insert_pair-before q y l b,
            insert_pair-before q y (insert_pair p l) b,
            insert_pair-after p q (y ∷ l) (positive_trans q.0 y.0 p.0 b a),
            insert_pair-after p y l a,
          )
          (inl refl)
  ]
  | inr a ↦ elim (Bool-cases (after q y)) [
    | inl b ↦
        rw
          (
            insert_pair-before p y l a,
            insert_pair-after q y l b,
            insert_pair-before p y (insert_pair q l) a,
            insert_pair-after q p (y ∷ l) (positive_trans p.0 y.0 q.0 a b),
            insert_pair-after q y l b,
          )
          (inl refl)
    | inr b ↦
        rw (insert_pair-before p y l a, insert_pair-before q y l b)
          (insert_pair_neighbours p q y l a b)
  ]
]
