-- ===== src/Core/DidWeb/Hex.antt =====
-- trust-policy.ts: decodeHex reads what a plain printer writes.
use credaryn.Core.DidWeb.Encodings.{decode_hex, read_pairs}
use credaryn.Core.DidWeb.Groups.{hex_digit-IsReadable}
use credaryn.Core.DidWeb.Ipv6.{hex_value, hex_digit}
use credaryn.Base.Text.{IsByte, Text, Bytes}
use credaryn.Base.{
  ◌∙◌, ne→==_false, [], refl, ap, false, ◌%◌, ◌+◌, arith, ◌==◌, ◌++◌, some, ◌*◌, ◌/◌, ◌≡◌, length,
  ◌<◌, ◌∷◌, All, ℕ,
}

-- Two lower case digits for a byte.
unfoldable pub print_hex : Bytes → Text
print_hex [] = []
print_hex (b ∷ bytes) = hex_digit (b / 16) ++ (hex_digit (b % 16) ++ print_hex bytes)

read_pairs-step :
    (c d h l : ℕ) (s : Text) (bytes : Bytes)
    → hex_value c ≡ some h
    → hex_value d ≡ some l
    → read_pairs s ≡ some bytes
    → read_pairs (c ∷ d ∷ s) ≡ some ((h * 16 + l) ∷ bytes)
unfolding read_pairs
read_pairs-step c d h l s bytes high low rest = rw (read_pairs, high, low, rest) refl

read_pairs-print_hex :
    (bytes : Bytes) → All IsByte bytes → read_pairs (print_hex bytes) ≡ some bytes
unfolding read_pairs print_hex
read_pairs-print_hex [] h = refl
read_pairs-print_hex (b ∷ bytes) (is_byte, h) =
    let (c, c_is, c_reads, _) = hex_digit-IsReadable (b / 16) (omega arith) in
    let (d, d_is, d_reads, _) = hex_digit-IsReadable (b % 16) (omega arith) in
    let printed : print_hex (b ∷ bytes) ≡ c ∷ d ∷ print_hex bytes = rw (c_is, d_is) refl in
    ap read_pairs printed
    ∙ read_pairs-step c d (b / 16) (b % 16) (print_hex bytes) bytes c_reads d_reads
        (read_pairs-print_hex bytes h)
    ∙ ap (λ n. some (n ∷ bytes)) (omega arith)

print_hex-length : (bytes : Bytes) → All IsByte bytes → length (print_hex bytes) ≡ 2 * length bytes
unfolding print_hex
print_hex-length [] h = refl
print_hex-length (b ∷ bytes) (is_byte, h) =
    let (c, c_is, _, _) = hex_digit-IsReadable (b / 16) (omega arith) in
    let (d, d_is, _, _) = hex_digit-IsReadable (b % 16) (omega arith) in
    let printed : print_hex (b ∷ bytes) ≡ c ∷ d ∷ print_hex bytes = rw (c_is, d_is) refl in
    rw printed (omega (arith, print_hex-length bytes h))

-- Bytes, at least one of them, that are written as two lower case hexadecimal digits each, are
-- read back by decodeHex.
pub decode_hex-print_hex :
    (bytes : Bytes)
    → All IsByte bytes
    → 0 < length bytes
    → decode_hex (print_hex bytes) ≡ some bytes
unfolding decode_hex
decode_hex-print_hex bytes h some_bytes =
    let not_empty : length (print_hex bytes) == 0 ≡ false =
      ne→==_false (length (print_hex bytes)) 0 (λ e. omega (arith, print_hex-length bytes h, e)) in
    rw not_empty (read_pairs-print_hex bytes h)
