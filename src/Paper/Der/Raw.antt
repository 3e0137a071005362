-- ===== src/Paper/Der/Raw.antt =====
-- The signature conversions of cose.ts: rawToDer and derToRaw.
use credaryn.Paper.Der.{
  raw_to_der, read_der_length, der_body, der_integer, left_pad32, read_der_integer, der_to_raw,
  without_zero, strip_zeros,
}
use credaryn.Base.Text.{Bytes}
use credaryn.Base.{
  take-append-drop, length-drop, length-take, append-nil, refl, drop, subst, true, take,
  drop-append, take-append, lt→ltb, inr, sym, length-append, ap, le→ltb_false, ne→==_false, ==_iff,
  false, inl, ltb, ◌<◌, ◌==◌, ◌+◌, ok, Bool-cases, zero, suc, ◌++◌, [], ◌-◌, arith, ◌∷◌, replicate,
  length, ◌≤◌, ◌≡◌, ℕ,
}

strip_zeros-length : (bs : Bytes) → length (strip_zeros bs) ≤ length bs
unfolding strip_zeros
strip_zeros-length [] = omega arith
strip_zeros-length (b ∷ []) = omega arith
strip_zeros-length (b ∷ c ∷ bs) = ground (arith, strip_zeros-length (c ∷ bs))

strip_zeros-pos : (b : ℕ) (bs : Bytes) → 1 ≤ length (strip_zeros (b ∷ bs))
unfolding strip_zeros
strip_zeros-pos b [] = omega arith
strip_zeros-pos b (c ∷ bs) = ground (arith, strip_zeros-pos c bs)

without_zero-length : (bs : Bytes) → length (without_zero bs) ≤ length bs
without_zero-length [] = omega arith
without_zero-length (b ∷ bs) = ground arith

-- The zeros that are skipped are those that the padding puts back.
pad-strip_zeros :
    (k : ℕ) (bs : Bytes)
    → k ≡ length bs
    → replicate (k - length (without_zero (strip_zeros bs))) 0 ++ without_zero (strip_zeros bs) ≡ bs
unfolding strip_zeros
pad-strip_zeros k [] e = ground arith
pad-strip_zeros k (b ∷ []) e = ground arith
pad-strip_zeros zero (b ∷ c ∷ bs) e = absurd (omega arith)
pad-strip_zeros (suc k) (b ∷ c ∷ bs) e = elim (Bool-cases (b == 0)) [
  | inl z ↦
      let m : ℕ = length (without_zero (strip_zeros (c ∷ bs))) in
      let fits : m ≤ k =
        omega (arith, e, without_zero-length (strip_zeros (c ∷ bs)), strip_zeros-length (c ∷ bs)) in
      let step : suc k - m ≡ suc (k - m) = omega (arith, fits) in
      let zero_head : b ≡ 0 = (==_iff b 0).0 z in
      rw (z, step, zero_head) (ap (λ t. 0 ∷ t) (pad-strip_zeros k (c ∷ bs) (omega arith)))
  | inr n ↦ let none_left : suc k - suc (suc (length bs)) ≡ 0 = omega arith in rw (n, n, none_left)
]

-- A half of a raw signature, as a DER integer.
pub length-der_integer :
    (bs : Bytes)
    → 1 ≤ length bs
    → (1 ≤ length (der_integer bs)) × (length (der_integer bs) ≤ length bs + 1)
unfolding der_integer
length-der_integer [] h = absurd (omega arith)
length-der_integer (b ∷ bs) h = ground (arith, strip_zeros-pos b bs, strip_zeros-length (b ∷ bs))

without_zero-der_integer :
    (bs : Bytes) → without_zero (der_integer bs) ≡ without_zero (strip_zeros bs)
unfolding der_integer
without_zero-der_integer bs = ground arith

pub left_pad32-der_integer : (bs : Bytes) → length bs ≡ 32 → left_pad32 (der_integer bs) ≡ ok bs
unfolding left_pad32
left_pad32-der_integer bs h =
    let short : ltb 32 (length (without_zero (strip_zeros bs))) ≡ false =
      le→ltb_false _ _
        (omega (arith, without_zero-length (strip_zeros bs), strip_zeros-length bs)) in
    rw (without_zero-der_integer bs, short, pad-strip_zeros 32 bs (sym h))

pub read_der_integer-cons :
    (r rest : Bytes)
    → 1 ≤ length r
    → length r < 128
    → read_der_integer (0x02 ∷ length r ∷ (r ++ rest)) ≡ ok (r, rest)
unfolding read_der_integer read_der_length
read_der_integer-cons r rest h k =
    let some_bytes : length r == 0 ≡ false = ne→==_false _ _ (omega arith) in
    let enough : ltb (length (r ++ rest)) (length r) ≡ false =
      rw (length-append r rest) (le→ltb_false _ _ (omega arith)) in
    rw (lt→ltb _ _ k, enough, some_bytes, take-append r rest, drop-append r rest)

pub read_der_integer-last :
    (s : Bytes)
    → 1 ≤ length s
    → length s < 128
    → read_der_integer (0x02 ∷ length s ∷ s) ≡ ok (s, [])
read_der_integer-last s h k =
    subst (λ t. read_der_integer (0x02 ∷ length s ∷ t) ≡ ok (s, [])) (append-nil s)
      (read_der_integer-cons s [] h k)

read_der_length-short : (n : ℕ) (rest : Bytes) → n < 128 → read_der_length (n ∷ rest) ≡ ok (n, rest)
unfolding read_der_length
read_der_length-short n rest h = rw (lt→ltb _ _ h)

der_to_raw-body :
    (r s : Bytes) (r' s' : Bytes)
    → left_pad32 r ≡ ok r'
    → left_pad32 s ≡ ok s'
    → (1 ≤ length r) × (length r ≤ 33)
    → (1 ≤ length s) × (length s ≤ 33)
    → der_to_raw (0x30 ∷ length (der_body r s) ∷ der_body r s) ≡ ok (r' ++ s')
unfolding der_to_raw der_body
der_to_raw-body r s r' s' er es (r1, r2) (s1, s2) =
    let size : length (r ++ 0x02 ∷ length s ∷ s) ≡ length r + (length s + 2) =
      omega (arith, length-append r (0x02 ∷ length s ∷ s)) in
    let same : length (der_body r s) == length (der_body r s) ≡ true =
      (==_iff (length (der_body r s)) _).1 refl in
    rw (
      read_der_length-short (length (der_body r s)) (der_body r s) (omega (arith, size)),
      same,
      read_der_integer-cons r (0x02 ∷ length s ∷ s) r1 (omega arith),
      read_der_integer-last s s1 (omega arith),
      er,
      es,
    )

pub der_integer_bounds :
    (bs : Bytes) → length bs ≡ 32 → (1 ≤ length (der_integer bs)) × (length (der_integer bs) ≤ 33)
der_integer_bounds bs h = omega (arith, length-der_integer bs)

take_all : (n : ℕ) (bs : Bytes) → length bs ≡ n → take n bs ≡ bs
take_all n bs h = subst (λ k. take k bs ≡ bs) h (rw append-nil at (take-append bs []))

pub halves :
    (signature : Bytes)
    → length signature ≡ 64
    → take 32 signature ++ take 32 (drop 32 signature) ≡ signature
halves signature h =
    let back : length (drop 32 signature) ≡ 32 = omega (arith, length-drop 32 signature) in
    rw (take_all 32 (drop 32 signature) back) (take-append-drop 32 signature)

-- A raw signature of 64 bytes is written as DER, and the DER is read back as the same 64 bytes.
pub der_to_raw-raw_to_der :
    (signature : Bytes)
    → length signature ≡ 64
    → (der : Bytes) × (raw_to_der signature ≡ ok der) × (der_to_raw der ≡ ok signature)
unfolding raw_to_der
der_to_raw-raw_to_der signature h =
    let r : Bytes = take 32 signature in
    let s : Bytes = take 32 (drop 32 signature) in
    let lr : length r ≡ 32 = length-take 32 signature (omega arith) in
    let ls : length s ≡ 32 =
      length-take 32 (drop 32 signature) (omega (arith, length-drop 32 signature)) in
    let whole : r ++ s ≡ signature = halves signature h in
    let fits : length signature == 64 ≡ true = (==_iff _ _).1 h in
    (
      _,
      rw fits refl,
      subst
          (λ t.
            der_to_raw (
              0x30
              ∷ length (der_body (der_integer r) (der_integer s))
              ∷ der_body (der_integer r) (der_integer s))
            ≡ ok t)
          whole
          (der_to_raw-body (der_integer r) (der_integer s) r s (left_pad32-der_integer r lr)
            (left_pad32-der_integer s ls) (der_integer_bounds r lr) (der_integer_bounds s ls)),
    )
