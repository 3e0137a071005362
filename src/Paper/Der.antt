-- ===== src/Paper/Der.antt =====
-- packages/paper/src/cose.ts, from derToRaw on, and providers/aws-kms/src/der-to-cose.ts: ECDSA
-- signatures as DER and as 64 raw bytes. An offset is the list of the bytes from there on.
pub mod Raw
pub mod Strict
use credaryn.Base.{
  drop, ◌-◌, ◌||◌, ◌%◌, ◌>>=◌, replicate, take, ◌+◌, refuse_if, ltb, [], ok, ◌++◌, not, ◌&&◌, ◌*◌,
  ◌>>◌, err, if◌then◌else◌, length, false, ◌==◌, ◌∷◌, Result, Bool, ℕ,
}
use credaryn.Base.Text.{Bytes}

-- The messages of both files.
pub data DerError : Type 0 where
  not_a_sequence truncated invalid_length sequence_mismatch trailing_bytes : DerError
  not_an_integer invalid_integer_length integer_too_long not_raw : DerError
  negative_integer padded_integer padded_length : DerError

-- `length = length * 256 + byte`, over the bytes of a long length.
unfoldable pub big_endian_value : ℕ → Bytes → ℕ
big_endian_value value [] = value
big_endian_value value (b ∷ bs) = big_endian_value (value * 256 + b) bs

-- A long length, behind its first byte: `count` bytes follow.
unfoldable pub read_long_length : ℕ → Bytes → Result DerError (ℕ × Bytes)
read_long_length count rest = do
  refuse_if (count == 0 || (ltb 2 count || ltb (length rest) count)) invalid_length
  ok (big_endian_value 0 (take count rest), drop count rest)

-- `first & 0x80` is 0 for the numbers below 128, and `first & 0x7f` the rest by 128.
unfoldable pub read_der_length : Bytes → Result DerError (ℕ × Bytes)
read_der_length [] = err truncated
read_der_length (first ∷ rest) =
    if ltb first 128 then ok (first, rest) else read_long_length (first % 128) rest

unfoldable pub read_der_integer : Bytes → Result DerError (Bytes × Bytes)
read_der_integer [] = err not_an_integer
read_der_integer (tag ∷ input) = do
  refuse_if (not (tag == 0x02)) not_an_integer
  (n, rest) ← read_der_length input
  refuse_if (ltb (length rest) n || n == 0) invalid_integer_length
  ok (take n rest, drop n rest)

abbrev pub without_zero : Bytes → Bytes
without_zero [] = []
without_zero (b ∷ bs) = if b == 0 then bs else b ∷ bs

unfoldable pub left_pad32 : Bytes → Result DerError Bytes
left_pad32 value = do
  refuse_if (ltb 32 (length (without_zero value))) integer_too_long
  ok (replicate (32 - length (without_zero value)) 0 ++ without_zero value)

unfoldable pub der_to_raw : Bytes → Result DerError Bytes
der_to_raw [] = err not_a_sequence
der_to_raw (tag ∷ input) = do
  refuse_if (not (tag == 0x30)) not_a_sequence
  (n, body) ← read_der_length input
  refuse_if (not (n == length body)) sequence_mismatch
  (r, rest) ← read_der_integer body
  (s, rest') ← read_der_integer rest
  refuse_if (not (length rest' == 0)) trailing_bytes
  r32 ← left_pad32 r
  s32 ← left_pad32 s
  ok (r32 ++ s32)

unfoldable pub signature_to_raw : Bytes → Result DerError Bytes
signature_to_raw signature = if length signature == 64 then ok signature else der_to_raw signature

-- The loop that skips leading zeros, up to the last byte.
unfoldable pub strip_zeros : Bytes → Bytes
strip_zeros [] = []
strip_zeros (b ∷ []) = b ∷ []
strip_zeros (b ∷ c ∷ bs) = if b == 0 then strip_zeros (c ∷ bs) else b ∷ c ∷ bs

abbrev with_sign_byte : Bytes → Bytes
with_sign_byte [] = []
with_sign_byte (b ∷ bs) = if ltb b 128 then b ∷ bs else 0 ∷ b ∷ bs

unfoldable pub der_integer : Bytes → Bytes
der_integer value = with_sign_byte (strip_zeros value)

unfoldable pub der_body : Bytes → Bytes → Bytes
der_body r s = 0x02 ∷ length r ∷ (r ++ 0x02 ∷ length s ∷ s)

-- The lengths are at most 70, so `Uint8Array` keeps them.
unfoldable pub raw_to_der : Bytes → Result DerError Bytes
raw_to_der signature = do
  refuse_if (not (length signature == 64)) not_raw
  let body = der_body (der_integer (take 32 signature)) (der_integer (take 32 (drop 32 signature)))
  ok (0x30 ∷ length body ∷ body)

-- providers/aws-kms/src/der-to-cose.ts: the same reader with stricter lengths and integers.
abbrev starts_with_zero : Bytes → Bool
starts_with_zero [] = false
starts_with_zero (b ∷ bs) = b == 0

unfoldable pub read_strict_length : Bytes → Result DerError (ℕ × Bytes)
read_strict_length [] = err truncated
read_strict_length (first ∷ rest) = if ltb first 128 then ok (first, rest) else (do
  refuse_if (first % 128 == 0 || (ltb 2 (first % 128) || ltb (length rest) (first % 128)))
      invalid_length
  refuse_if (starts_with_zero rest) padded_length
  ok (big_endian_value 0 (take (first % 128) rest), drop (first % 128) rest))

abbrev is_negative_integer : Bytes → Bool
is_negative_integer [] = false
is_negative_integer (b ∷ bs) = not (ltb b 128)

abbrev is_padded : Bytes → Bool
is_padded (b ∷ c ∷ bs) = b == 0 && ltb c 128
is_padded _ = false

unfoldable pub read_strict_integer : Bytes → Result DerError (Bytes × Bytes)
read_strict_integer [] = err not_an_integer
read_strict_integer (tag ∷ input) = do
  refuse_if (not (tag == 0x02)) not_an_integer
  (n, rest) ← read_strict_length input
  refuse_if (n == 0 || ltb (length rest) n) invalid_integer_length
  refuse_if (is_negative_integer (take n rest)) negative_integer
  refuse_if (is_padded (take n rest)) padded_integer
  ok (take n rest, drop n rest)

unfoldable pub der_to_cose_signature : Bytes → Result DerError Bytes
der_to_cose_signature [] = err not_a_sequence
der_to_cose_signature (tag ∷ input) = do
  refuse_if (not (tag == 0x30)) not_a_sequence
  (n, body) ← read_strict_length input
  refuse_if (not (n == length body)) sequence_mismatch
  (r, rest) ← read_strict_integer body
  (s, rest') ← read_strict_integer rest
  refuse_if (not (length rest' == 0)) trailing_bytes
  r32 ← left_pad32 r
  s32 ← left_pad32 s
  ok (r32 ++ s32)

-- Both readers and the writer, for a run of them.
unfoldable pub der_code : Unit {0}
unfolding der_to_raw read_der_length read_long_length big_endian_value read_der_integer left_pad32
    raw_to_der der_body der_integer strip_zeros der_to_cose_signature read_strict_length
    read_strict_integer
der_code = tt
