-- ===== src/Paper/Cbor/Heads.antt =====
-- The length headers of cbor.ts: encodeLength and readArgument.
use credaryn.Base.{
  ℕ, ◌+◌, ◌*◌, ◌/◌, ◌%◌, ◌≤◌, ◌<◌, ◌≡◌, false, ◌∷◌, ◌++◌, arith, ltb, leb, ◌==◌, if◌then◌else◌,
  drop, ok, max_safe_integer,
}
use credaryn.Base.Text.{Bytes}
use credaryn.Paper.Cbor.{Value}
use credaryn.Paper.Cbor.Encode.{length_bytes}
use credaryn.Paper.Cbor.Decode.{
  read_big_endian, least_value, read_extended, byte_count, Reader, read_initial, read_byte,
  read_major, read_length,
}

pub additional_of : ℕ → ℕ
additional_of n =
    if ltb n 24
    then n
    else if leb n 0xff
    then 24
    else if leb n 0xffff
    then 25
    else if leb n 0xffff_ffff
    then 26
    else 27

pub extension : ℕ → Bytes
unfolding length_bytes
extension n = drop 1 (length_bytes 0 n)

additional_of-lt : (n : ℕ) → additional_of n < 28
unfolding additional_of
additional_of-lt n = ground arith

pub length_bytes-cons :
    (major n : ℕ) → length_bytes major n ≡ (major * 32 + additional_of n) ∷ extension n
unfolding length_bytes additional_of extension
length_bytes-cons major n = ground arith

pub read_length-extension :
    (n : ℕ) (rest : Bytes)
    → n ≤ max_safe_integer
    → read_length (additional_of n) (extension n ++ rest) ≡ ok (n, rest)
unfolding read_length read_extended byte_count read_big_endian least_value read_byte additional_of
    extension
read_length-extension n rest h = ground arith

-- Behind a header the reader is in the branch of its major type.
pub read_initial-length_bytes :
    (read : Reader Value) (major n : ℕ) (rest : Bytes)
    → major < 8
    → read_initial read (length_bytes major n ++ rest)
      ≡ read_major read major (additional_of n) (extension n ++ rest)
unfolding read_initial read_byte
read_initial-length_bytes read major n rest h =
    let e : (major * 32 + additional_of n) / 32 ≡ major = omega (arith, additional_of-lt n) in
    let r : (major * 32 + additional_of n) % 32 ≡ additional_of n =
      omega (arith, additional_of-lt n) in
    let t : additional_of n == 31 ≡ false = ground (arith, additional_of-lt n) in
    rw (length_bytes-cons major n, e, r, t)
