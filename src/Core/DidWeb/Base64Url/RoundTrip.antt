-- ===== src/Core/DidWeb/Base64Url/RoundTrip.antt =====
-- trust-policy.ts: decodeBase64Url reads what the encoder of RFC 4648 writes without padding.
use mathlib.Core.List.{reverse, reverse_aux, reverse-append, reverse-reverse}
use credaryn.Base.{
  zero, length-replicate, suc, append-nil, length-append, ◌-◌, ◌∙◌, replicate, ◌++◌, ◌≤◌, ==_iff,
  ap, ◌==◌, true, refl, some, arith, length, List, map, All, ℕ, ◌∷◌, [], ◌≡◌, ◌+◌, ◌%◌,
}
use credaryn.Base.Text.{IsByte, Text, Bytes}
use credaryn.Core.DidWeb.Encodings.{
  atob, read_sextets, strip_spaces, drop_equals, strip_padding, decode_base64_url, base64_alphabet,
  normalize_base64,
}
use credaryn.Core.DidWeb.Base64Url.{
  bytes_of_sextets-sextets_of, length-sextets_of, sextets_of-IsSextets, url_alphabet,
  reads_back_lem, sextets_of, digit_in, IsSextet, IsDigit, encode_base64_url,
}

-- The digits in the alphabet of Base64, once `-` and `_` are replaced.
abbrev digits_of : List ℕ → Text
digits_of sextets = map (digit_in base64_alphabet) sextets

normalize_base64-digits :
    (sextets : List ℕ)
    → All IsSextet sextets
    → normalize_base64 (map (digit_in url_alphabet) sextets) ≡ digits_of sextets
unfolding normalize_base64
normalize_base64-digits [] h = refl
normalize_base64-digits (n ∷ sextets) (below, h) =
    ap (λ s. s ++ normalize_base64 (map (digit_in url_alphabet) sextets)) (reads_back_lem n below).0
    ∙ ap (λ s. digit_in base64_alphabet n ∷ s) (normalize_base64-digits sextets h)

read_sextets-digits :
    (sextets : List ℕ) → All IsSextet sextets → read_sextets (digits_of sextets) ≡ some sextets
unfolding read_sextets
read_sextets-digits [] h = refl
read_sextets-digits (n ∷ sextets) (below, h) =
    rw ((reads_back_lem n below).1, read_sextets-digits sextets h) refl

digits_of-IsDigits : (sextets : List ℕ) → All IsSextet sextets → All IsDigit (digits_of sextets)
digits_of-IsDigits [] h = tt
digits_of-IsDigits (n ∷ sextets) (below, h) =
    ((reads_back_lem n below).2, digits_of-IsDigits sextets h)

length-digits_of : (sextets : List ℕ) → length (digits_of sextets) ≡ length sextets
length-digits_of [] = refl
length-digits_of (n ∷ sextets) = omega (arith, length-digits_of sextets)

strip_spaces-digits :
    (s : Text) (padding : ℕ)
    → All IsDigit s
    → strip_spaces (s ++ replicate padding b'=') ≡ s ++ replicate padding b'='
unfolding strip_spaces
strip_spaces-digits [] zero h = refl
strip_spaces-digits [] (suc padding) h = ap (λ s. b'=' ∷ s) (strip_spaces-digits [] padding tt)
strip_spaces-digits (c ∷ s) padding ((no_space, _), h) =
    rw no_space (ap (λ t. c ∷ t) (strip_spaces-digits s padding h))

reverse_aux-IsDigits : (s t : Text) → All IsDigit s → All IsDigit t → All IsDigit (reverse_aux s t)
reverse_aux-IsDigits [] t h k = k
reverse_aux-IsDigits (c ∷ s) t (d, h) k = reverse_aux-IsDigits s (c ∷ t) h (d, k)

drop_equals-digits : (s : Text) → All IsDigit s → drop_equals s ≡ s
drop_equals-digits [] h = refl
drop_equals-digits (c ∷ []) ((_, d), _) = rw d refl
drop_equals-digits (c ∷ e ∷ s) ((_, d), _) = rw d refl

drop_equals-one : (s : Text) → All IsDigit s → drop_equals (b'=' ∷ s) ≡ s
drop_equals-one [] h = refl
drop_equals-one (c ∷ s) ((_, d), _) = rw d refl

-- What stands at the end comes first in reverse.
drop_equals-reverse :
    (s : Text) (padding : ℕ)
    → All IsDigit s
    → padding ≤ 2
    → drop_equals (reverse (s ++ replicate padding b'=')) ≡ reverse s
drop_equals-reverse s zero h below =
    rw append-nil (drop_equals-digits (reverse s) (reverse_aux-IsDigits s [] h tt))
drop_equals-reverse s (suc zero) h below =
    ap drop_equals (reverse-append s (b'=' ∷ []))
    ∙ drop_equals-one (reverse s) (reverse_aux-IsDigits s [] h tt)
drop_equals-reverse s (suc (suc zero)) h below =
    ap drop_equals (reverse-append s (b'=' ∷ b'=' ∷ []))
drop_equals-reverse s (suc (suc (suc n))) h below = absurd (omega arith)

strip_padding-digits :
    (s : Text) (padding : ℕ)
    → All IsDigit s
    → padding ≤ 2
    → (length s + padding) % 4 ≡ 0
    → strip_padding (s ++ replicate padding b'=') ≡ s
unfolding strip_padding
strip_padding-digits s padding h below whole =
    let size : length (s ++ replicate padding b'=') % 4 == 0 ≡ true = (==_iff _ 0).1 (
      omega (
        arith,
        length-append s (replicate padding b'='),
        length-replicate {A = ℕ} padding b'=',
        whole,
      )) in
    rw (size, drop_equals-reverse s padding h below) (reverse-reverse s)

-- Bytes that are encoded are decoded to themselves.
pub decode_base64_url-encode_base64_url :
    (bytes : Bytes) → All IsByte bytes → decode_base64_url (encode_base64_url bytes) ≡ some bytes
unfolding decode_base64_url encode_base64_url atob
decode_base64_url-encode_base64_url bytes h =
    let sextets = sextets_of bytes in
    let small = sextets_of-IsSextets bytes h in
    let s = digits_of sextets in
    let digits = digits_of-IsDigits sextets small in
    let padding = (4 - length s % 4) % 4 in
    let below : padding ≤ 2 = omega (arith, length-sextets_of bytes, length-digits_of sextets) in
    let whole : (length s + padding) % 4 ≡ 0 = omega arith in
    rw
      (
        normalize_base64-digits sextets small,
        strip_spaces-digits s padding digits,
        strip_padding-digits s padding digits below whole,
        read_sextets-digits sextets small,
      )
      (bytes_of_sextets-sextets_of bytes h)
