-- ===== src/Core/DidWeb/Base58.antt =====
-- trust-policy.ts: what decodeBase58 computes.
use native.Mathlib.Nat.{mul-le-mul_right, mul_assoc}
use native.Mathlib.Omega.{pow_step}
use credaryn.Core.DidWeb.Encodings.{
  unshift_zeros, decode_base58, base58_alphabet, position, shift_out, read_base58,
}
use credaryn.Base.Options.{>>=-eq-some}
use credaryn.Base.{
  refl, false, ltb→lt, All, ◌∙◌, sym, ◌%◌, ◌≤◌, ◌/◌, ap, none, Option-cases, zero, arith, inr, inl,
  ltb, [], Bool-cases, some_injective, ◌+◌, ◌==◌, length, suc, ◌*◌, if◌then◌else◌, some, ◌^◌, ◌∷◌,
  ◌≡◌, ◌<◌, List, ℕ,
}
use credaryn.Base.Text.{IsByte, Bytes, Text}

-- The number that bytes stand for, the highest first, behind those before them.
abbrev pub number_of : ℕ → Bytes → ℕ
number_of n [] = n
number_of n (b ∷ bytes) = number_of (n * 256 + b) bytes

-- How often a number stands at the start of a list.
unfoldable pub leading : ℕ → List ℕ → ℕ
leading c [] = 0
leading c (d ∷ s) = let rest = leading c s in if d == c then suc rest else 0

pub position-bound : (c : ℕ) (s : Text) (n : ℕ) → position c s ≡ some n → n < length s
unfolding position
position-bound c [] n h = cc
position-bound c (d ∷ s) n h = elim (Bool-cases (d == c)) [
  | inl same ↦ let z : 0 ≡ n = some_injective (rw same at h) in omega arith
  | inr other ↦ elim (Option-cases (position c s)) [
    | inl missing ↦ let bad : none ≡ some n = rw (other, missing) at h in cc
    | inr (m, found) ↦
        let next : suc m ≡ n = some_injective (rw (other, found) at h) in
        omega (arith, position-bound c s m found)
  ]
]

-- A text of k characters stands for a number of k bytes at most.
read_base58-bound : (n m : ℕ) (s : Text) → read_base58 n s ≡ some m → m < (n + 1) * 256 ^ length s
unfolding read_base58
read_base58-bound n m [] h = let same : n ≡ m = some_injective h in omega arith
read_base58-bound n m (c ∷ s) h =
    let (index, found, rest) = >>=-eq-some (position c base58_alphabet) _ h in
    let below = position-bound c base58_alphabet index found in
    let bound = read_base58-bound (n * 58 + index) m s rest in
    let grown : (n * 58 + index + 1) * 256 ^ length s ≤ (n + 1) * 256 * 256 ^ length s =
      mul-le-mul_right (256 ^ length s) (omega arith) in
    let product : (n + 1) * 256 ^ suc (length s) ≡ (n + 1) * 256 * 256 ^ length s =
      rw (pow_step 256 (length s)) (sym (mul_assoc (n + 1) 256 (256 ^ length s))) in
    omega arith

div-lt : (k n : ℕ) → n < 256 ^ suc k → n / 256 < 256 ^ k
div-lt k n h = let power = pow_step 256 k in omega arith

shift_out-number_of :
    (fuel numeric : ℕ) (bytes : Bytes)
    → numeric < 256 ^ fuel
    → number_of 0 (shift_out fuel numeric bytes) ≡ number_of numeric bytes
unfolding shift_out
shift_out-number_of zero numeric bytes h =
    let nothing : 0 ≡ numeric = omega arith in ap (λ n. number_of n bytes) nothing
shift_out-number_of (suc fuel) numeric bytes h = elim (Bool-cases (ltb 0 numeric)) [
  | inl some_left ↦
      let step : numeric / 256 * 256 + numeric % 256 ≡ numeric = omega arith in
      rw some_left (
        shift_out-number_of fuel (numeric / 256) ((numeric % 256) ∷ bytes) (div-lt fuel numeric h)
        ∙ ap (λ n. number_of n bytes) step)
  | inr done ↦
      let nothing : 0 ≡ numeric = ground arith in rw done (ap (λ n. number_of n bytes) nothing)
]

-- The last byte that is put in front is the first digit of the number.
no_leading :
    (numeric : ℕ) (bytes : Bytes)
    → 0 < numeric
    → (if ltb 0 (numeric / 256) then 0 else leading 0 ((numeric % 256) ∷ bytes)) ≡ 0
unfolding leading
no_leading numeric bytes h = elim (Bool-cases (ltb 0 (numeric / 256))) [
  | inl more ↦ rw more refl
  | inr last ↦ let digit : numeric % 256 == 0 ≡ false = ground arith in rw (last, digit) refl
]

-- The bytes that are put in front start with one that is not 0.
shift_out-leading :
    (fuel numeric : ℕ) (bytes : Bytes)
    → numeric < 256 ^ fuel
    → leading 0 (shift_out fuel numeric bytes) ≡ (if ltb 0 numeric then 0 else leading 0 bytes)
unfolding shift_out leading
shift_out-leading zero numeric bytes h = let nothing : numeric ≡ 0 = omega arith in rw nothing refl
shift_out-leading (suc fuel) numeric bytes h = elim (Bool-cases (ltb 0 numeric)) [
  | inr done ↦ rw done refl
  | inl some_left ↦ rw some_left (
      shift_out-leading fuel (numeric / 256) ((numeric % 256) ∷ bytes) (div-lt fuel numeric h)
      ∙ no_leading numeric bytes (ltb→lt 0 numeric some_left))
]

shift_out-IsBytes :
    (fuel numeric : ℕ) (bytes : Bytes)
    → All IsByte bytes
    → All IsByte (shift_out fuel numeric bytes)
unfolding shift_out
shift_out-IsBytes zero numeric bytes h = h
shift_out-IsBytes (suc fuel) numeric bytes h = elim (Bool-cases (ltb 0 numeric)) [
  | inr done ↦ rw done h
  | inl some_left ↦
      rw some_left
        (shift_out-IsBytes fuel (numeric / 256) ((numeric % 256) ∷ bytes) (omega arith, h))
]

unshift_zeros-number_of :
    (s : Text) (bytes : Bytes) → number_of 0 (unshift_zeros s bytes) ≡ number_of 0 bytes
unfolding unshift_zeros
unshift_zeros-number_of [] bytes = refl
unshift_zeros-number_of (c ∷ s) bytes = elim (Bool-cases (c == b'1')) [
  | inl one ↦ rw one (unshift_zeros-number_of s (0 ∷ bytes))
  | inr other ↦ rw other refl
]

unshift_zeros-leading :
    (s : Text) (bytes : Bytes)
    → leading 0 (unshift_zeros s bytes) ≡ leading b'1' s + leading 0 bytes
unfolding unshift_zeros leading
unshift_zeros-leading [] bytes = omega arith
unshift_zeros-leading (c ∷ s) bytes = elim (Bool-cases (c == b'1')) [
  | inl one ↦ rw one (omega (arith, unshift_zeros-leading s (0 ∷ bytes)))
  | inr other ↦ rw other (omega arith)
]

unshift_zeros-IsBytes :
    (s : Text) (bytes : Bytes) → All IsByte bytes → All IsByte (unshift_zeros s bytes)
unfolding unshift_zeros
unshift_zeros-IsBytes [] bytes h = h
unshift_zeros-IsBytes (c ∷ s) bytes h = elim (Bool-cases (c == b'1')) [
  | inl one ↦ rw one (unshift_zeros-IsBytes s (0 ∷ bytes) (omega arith, h))
  | inr other ↦ rw other h
]

none_in_front : (n k : ℕ) → k + (if ltb 0 n then 0 else leading 0 []) ≡ k
unfolding leading
none_in_front n k = elim (Bool-cases (ltb 0 n)) [
  | inl some_left ↦ rw some_left (omega arith)
  | inr done ↦ rw done (omega arith)
]

-- If a Base58 text is decoded, then the bytes stand for the number that the text stands for, start
-- with as many zeros as the text has leading ones, and are bytes.
pub decode_base58-number_of :
    (value : Text) (bytes : Bytes)
    → decode_base58 value ≡ some bytes
    → (read_base58 0 value ≡ some (number_of 0 bytes))
      × (leading 0 bytes ≡ leading b'1' value)
      × All IsByte bytes
unfolding decode_base58
decode_base58-number_of value bytes h = elim (Bool-cases (length value == 0)) [
  | inl empty ↦ let bad : none ≡ some bytes = rw (decode_base58, empty) at h in cc
  | inr not_empty ↦ elim (Option-cases (read_base58 0 value)) [
    | inl missing ↦ let bad : none ≡ some bytes = rw (decode_base58, not_empty, missing) at h in cc
    | inr (numeric, read) ↦
        let shifted = shift_out (length value) numeric [] in
        let same : unshift_zeros value shifted ≡ bytes =
          some_injective (rw (decode_base58, not_empty, read) at h) in
        let bound : numeric < 256 ^ length value =
          omega (arith, read_base58-bound 0 numeric value read) in
        rw⁻¹ same (
          rw
              (
                unshift_zeros-number_of value shifted,
                shift_out-number_of (length value) numeric [] bound,
              )
              read,
          rw
              (
                unshift_zeros-leading value shifted,
                shift_out-leading (length value) numeric [] bound,
              )
              (none_in_front numeric (leading b'1' value)),
          unshift_zeros-IsBytes value shifted (shift_out-IsBytes (length value) numeric [] tt),
        )
  ]
]
