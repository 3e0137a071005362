-- ===== src/Paper/Der/Strict.antt =====
-- The reader of der-to-cose.ts beside the one of cose.ts.
use credaryn.Paper.Der.{
  left_pad32, trailing_bytes, sequence_mismatch, not_a_sequence, read_long_length, read_der_length,
  read_der_integer, read_strict_length, read_strict_integer, der_to_raw, der_to_cose_signature,
}
use credaryn.Base.{
  ◌++◌, ◌>>=◌, ◌>>◌, inl, [], inr, length, arith, Result-cases, >>=-eq-ok, ◌∷◌, ◌==◌, ok, not, ◌≡◌,
  refuse_if, ℕ,
}
use credaryn.Base.Text.{Bytes}

read_strict_length-eq-ok :
    (input : Bytes) (n : ℕ) (rest : Bytes)
    → read_strict_length input ≡ ok (n, rest)
    → read_der_length input ≡ ok (n, rest)
unfolding read_strict_length read_der_length read_long_length
read_strict_length-eq-ok [] n rest h = cc
read_strict_length-eq-ok (first ∷ input) n rest h = ground arith

read_strict_integer-eq-ok :
    (input value rest : Bytes)
    → read_strict_integer input ≡ ok (value, rest)
    → read_der_integer input ≡ ok (value, rest)
unfolding read_strict_integer read_der_integer
read_strict_integer-eq-ok [] value rest h = cc
read_strict_integer-eq-ok (tag ∷ input) value rest h =
    elim (Result-cases (read_strict_length input)) [
      | inr (e, p) ↦ absurd (ground arith)
      | inl ((n, body), p) ↦ ground (arith, p, read_strict_length-eq-ok input n body p)
    ]

der_to_raw_of_ok :
    (tag : ℕ) (input : Bytes) (n : ℕ) (body r rest s rest' raw : Bytes) {u u' : Unit {0}}
    → refuse_if (not (tag == 0x30)) not_a_sequence ≡ ok u
    → read_der_length input ≡ ok (n, body)
    → refuse_if (not (n == length body)) sequence_mismatch ≡ ok u'
    → read_der_integer body ≡ ok (r, rest)
    → read_der_integer rest ≡ ok (s, rest')
    → (refuse_if (not (length rest' == 0)) trailing_bytes
        >> (left_pad32 r >>= λ r32. left_pad32 s >>= λ s32. ok (r32 ++ s32)))
      ≡ ok raw
    → der_to_raw (tag ∷ input) ≡ ok raw
unfolding der_to_raw
der_to_raw_of_ok tag input n body r rest s rest' raw g p g' q q' h = rw (g, p, g', q, q') h

-- A DER signature that the KMS provider converts to raw bytes is converted to the same bytes by
-- the paper package.
pub der_to_cose_signature-refines :
    (der raw : Bytes) → der_to_cose_signature der ≡ ok raw → der_to_raw der ≡ ok raw
unfolding der_to_cose_signature
der_to_cose_signature-refines [] raw h = cc
der_to_cose_signature-refines (tag ∷ input) raw h =
    let (u, g, h1) = >>=-eq-ok (refuse_if (not (tag == 0x30)) not_a_sequence) _ h in
    let ((n, body), p, h2) = >>=-eq-ok (read_strict_length input) _ h1 in
    let (u', g', h3) = >>=-eq-ok (refuse_if (not (n == length body)) sequence_mismatch) _ h2 in
    let ((r, rest), q, h4) = >>=-eq-ok (read_strict_integer body) _ h3 in
    let ((s, rest'), q', h5) = >>=-eq-ok (read_strict_integer rest) _ h4 in
    der_to_raw_of_ok tag input n body r rest s rest' raw g (read_strict_length-eq-ok input n body p)
      g' (read_strict_integer-eq-ok body r rest q) (read_strict_integer-eq-ok rest s rest' q') h5
