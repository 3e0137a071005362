-- ===== src/Core/DidWeb/Base64Url.antt =====
-- trust-policy.ts, decodeBase64Url: the encoder of RFC 4648 without padding, and its digits.
pub mod RoundTrip
use mathlib.Core.List.{reverse, reverse_aux, reverse-append, reverse-reverse}
use credaryn.Base.{
  zero, length-replicate, suc, append-nil, length-append, ◌-◌, ◌∙◌, replicate, ◌++◌, ◌≤◌, ==_iff,
  ap, Option, not, true_and, ◌==◌, ◌&&◌, passes_under_lem, false, Bool, ◌≢◌, passes_under, true,
  refl, some, arith, none, length, get_elem?, List, map, ◌<◌, All, ℕ, ◌∷◌, [], ◌≡◌, ◌*◌, ◌+◌, ◌/◌,
  ◌%◌,
}
use credaryn.Base.Text.{list_eq→eq, list_eq, IsByte, codes, Text, Bytes}
use credaryn.Core.DidWeb.Encodings.{
  atob, read_sextets, strip_spaces, drop_equals, strip_padding, decode_base64_url, base64_alphabet,
  is_ascii_space, position, normalize_base64, bytes_of_sextets,
}

abbrev pub url_alphabet : Text
url_alphabet = codes "ABCDEFGHIJKLMNOPQRSTUVWXYZabcdefghijklmnopqrstuvwxyz0123456789-_"

abbrev pub digit_in : Text → ℕ → ℕ
digit_in alphabet n = elim (get_elem? alphabet n) [ none ↦ 0 | some c ↦ c ]

-- Three bytes are four groups of six bits; the last group of one byte or two is filled up with zeros.
abbrev pub sextets_of : Bytes → List ℕ
sextets_of [] = []
sextets_of (a ∷ []) = (a / 4) ∷ (a % 4 * 16) ∷ []
sextets_of (a ∷ b ∷ []) = (a / 4) ∷ (a % 4 * 16 + b / 16) ∷ (b % 16 * 4) ∷ []
sextets_of (a ∷ b ∷ c ∷ bytes) =
    (a / 4) ∷ (a % 4 * 16 + b / 16) ∷ (b % 16 * 4 + c / 64) ∷ (c % 64) ∷ sextets_of bytes

unfoldable pub encode_base64_url : Bytes → Text
encode_base64_url bytes = map (digit_in url_alphabet) (sextets_of bytes)

abbrev pub IsSextet : ℕ → Type 0
IsSextet n = n < 64

pub sextets_of-IsSextets : (bytes : Bytes) → All IsByte bytes → All IsSextet (sextets_of bytes)
sextets_of-IsSextets [] h = tt
sextets_of-IsSextets (a ∷ []) (ha, _) = (omega arith, (omega arith, tt))
sextets_of-IsSextets (a ∷ b ∷ []) (ha, (hb, _)) = (omega arith, (omega arith, (omega arith, tt)))
sextets_of-IsSextets (a ∷ b ∷ c ∷ bytes) (ha, (hb, (hc, h))) =
    (omega arith, (omega arith, (omega arith, (omega arith, sextets_of-IsSextets bytes h))))

-- Any number of whole groups, and two digits or three at the end.
pub length-sextets_of : (bytes : Bytes) → length (sextets_of bytes) % 4 ≢ 1
length-sextets_of [] = omega arith
length-sextets_of (a ∷ []) = omega arith
length-sextets_of (a ∷ b ∷ []) = omega arith
length-sextets_of (a ∷ b ∷ c ∷ bytes) = omega (arith, length-sextets_of bytes)

pub bytes_of_sextets-sextets_of :
    (bytes : Bytes) → All IsByte bytes → bytes_of_sextets (sextets_of bytes) ≡ some bytes
unfolding bytes_of_sextets
bytes_of_sextets-sextets_of [] h = refl
bytes_of_sextets-sextets_of (a ∷ []) (ha, _) =
    let a1 : a / 4 * 4 + a % 4 * 16 / 16 ≡ a = omega arith in rw a1 refl
bytes_of_sextets-sextets_of (a ∷ b ∷ []) (ha, (hb, _)) =
    let a1 : a / 4 * 4 + (a % 4 * 16 + b / 16) / 16 ≡ a = omega arith in
    let b1 : (a % 4 * 16 + b / 16) % 16 * 16 + b % 16 * 4 / 4 ≡ b = omega arith in rw (a1, b1) refl
bytes_of_sextets-sextets_of (a ∷ b ∷ c ∷ bytes) (ha, (hb, (hc, h))) =
    let a1 : a / 4 * 4 + (a % 4 * 16 + b / 16) / 16 ≡ a = omega arith in
    let b1 : (a % 4 * 16 + b / 16) % 16 * 16 + (b % 16 * 4 + c / 64) / 4 ≡ b = omega arith in
    let c1 : (b % 16 * 4 + c / 64) % 4 * 64 + c % 64 ≡ c = omega arith in
    rw (bytes_of_sextets-sextets_of bytes h, a1, b1, c1) refl

-- A character that is neither a space nor a padding.
abbrev pub IsDigit : ℕ → Type 0
IsDigit c = (is_ascii_space c ≡ false) × (c == b'=' ≡ false)

abbrev is_found : Option ℕ → ℕ → Bool
is_found none n = false
is_found (some m) n = m == n

is_found-eq : (o : Option ℕ) (n : ℕ) → is_found o n ≡ true → o ≡ some n
is_found-eq none n h = cc
is_found-eq (some m) n h = ap some ((==_iff m n).0 h)

reads_back : ℕ → Bool
reads_back n =
    let c = digit_in base64_alphabet n in
    list_eq (normalize_base64 (digit_in url_alphabet n ∷ [])) (c ∷ [])
    && is_found (position c base64_alphabet) n
    && not (is_ascii_space c)
    && not (c == b'=')

alphabet_table : passes_under reads_back 64 ≡ true
unfolding passes_under reads_back position normalize_base64 list_eq
alphabet_table = refl

not-true : (b : Bool) → not b ≡ true → b ≡ false
not-true true h = cc
not-true false h = refl

pub reads_back_lem :
    (n : ℕ)
    → n < 64
    → (normalize_base64 (digit_in url_alphabet n ∷ []) ≡ digit_in base64_alphabet n ∷ [])
      × (position (digit_in base64_alphabet n) base64_alphabet ≡ some n)
      × IsDigit (digit_in base64_alphabet n)
unfolding reads_back
reads_back_lem n h =
    let c = digit_in base64_alphabet n in
    let shifted = normalize_base64 (digit_in url_alphabet n ∷ []) in
    let passed = passes_under_lem reads_back 64 n h alphabet_table in
    let (h1, no_padding) = true_and _ (not (c == b'=')) passed in
    let (h2, no_space) = true_and _ (not (is_ascii_space c)) h1 in
    let (same, placed) =
      true_and (list_eq shifted (c ∷ [])) (is_found (position c base64_alphabet) n) h2 in
    (
      list_eq→eq shifted (c ∷ []) same,
      is_found-eq (position c base64_alphabet) n placed,
      (not-true _ no_space, not-true _ no_padding),
    )
