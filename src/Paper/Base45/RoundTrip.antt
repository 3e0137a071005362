-- ===== src/Paper/Base45/RoundTrip.antt =====
-- The encoder and the decoder of base45.ts together.
use credaryn.Paper.Base45.{
  one_byte_overflow, invalid_length, text_too_long, two_byte_overflow, max_base45_text_chars,
  max_base45_binary_bytes, decode_chunks, decode_base45, encode_chunks, encode_base45,
  read_character, base45_alphabet, character, index_of,
}
use credaryn.Base.{
  passed, ok_injective, ltb_false→le, ◌++◌, subst, ap, refuse_if, ◌∙◌, >>=-eq-ok, zero, ne→==_false,
  suc, ltb, le→ltb_false, ◌*◌, ◌+◌, ◌/◌, ◌≤◌, length, ◌%◌, All, ◌==◌, inr, passes_under_lem, false,
  inl, ok, none, passes_under, Option-cases, some, [], get_elem?, arith, refl, ◌∷◌, Bool, true, ◌<◌,
  ℕ, ◌≡◌,
}
use credaryn.Base.Text.{Text, IsByte, Bytes}

-- The character at a position of the alphabet is read back as that position.
reads_back : ℕ → Bool
unfolding index_of character
reads_back n = elim (get_elem? base45_alphabet n) [
  | none ↦ false
  | some c ↦ elim (index_of c base45_alphabet) [ none ↦ false | some m ↦ m == n ]
]

alphabet_table : passes_under reads_back 45 ≡ true
unfolding passes_under reads_back
alphabet_table = refl

character-cases :
    (n : ℕ)
    → reads_back n ≡ true
    → (c : ℕ) × (character n ≡ c ∷ []) × (index_of c base45_alphabet ≡ some n)
unfolding reads_back
character-cases n h = elim (Option-cases (get_elem? base45_alphabet n)) [
  | inl e ↦ absurd (ground arith)
  | inr (c, e) ↦ (c, ground arith, ground arith)
]

-- What the encoder writes for a digit is one character, which the decoder reads as the digit.
digit_back :
    (n : ℕ)
    → n < 45
    → (c : ℕ) × (character n ≡ c ∷ []) × ((offset : ℕ) → read_character c offset ≡ ok n)
unfolding read_character
digit_back n h =
    let (c, e, f) = character-cases n (passes_under_lem reads_back 45 n h alphabet_table) in
    (c, e, λ offset. rw (f, read_character))

length-encode_chunks :
    (bs : Bytes) → All IsByte bs → length (encode_chunks bs) ≡ length bs / 2 * 3 + length bs % 2 * 2
unfolding encode_chunks
length-encode_chunks [] h = refl
length-encode_chunks (a ∷ []) (h, _) =
    let (x, ex, _) = digit_back (a % 45) (omega arith) in
    let (y, ey, _) = digit_back (a / 45) (omega arith) in rw (ex, ey)
length-encode_chunks (a ∷ b ∷ bs) (h, (k, hs)) =
    let (x, ex, _) = digit_back ((a * 256 + b) % 45) (omega arith) in
    let (y, ey, _) = digit_back ((a * 256 + b) / 45 % 45) (omega arith) in
    let (z, ez, _) = digit_back ((a * 256 + b) / 2025) (omega arith) in
    rw (ex, ey, ez) (omega (arith, length-encode_chunks bs hs))

decode_chunks-encode_chunks :
    (index : ℕ) (bs : Bytes) → All IsByte bs → decode_chunks index (encode_chunks bs) ≡ ok bs
unfolding encode_chunks decode_chunks
decode_chunks-encode_chunks index [] h = refl
decode_chunks-encode_chunks index (a ∷ []) (h, _) =
    let (x, ex, rx) = digit_back (a % 45) (omega arith) in
    let (y, ey, ry) = digit_back (a / 45) (omega arith) in
    let e : a % 45 + a / 45 * 45 ≡ a = omega arith in
    rw (ex, ey, rx index, ry (index + 1), e, le→ltb_false 0xff a (omega arith))
decode_chunks-encode_chunks index (a ∷ b ∷ bs) (h, (k, hs)) =
    let (x, ex, rx) = digit_back ((a * 256 + b) % 45) (omega arith) in
    let (y, ey, ry) = digit_back ((a * 256 + b) / 45 % 45) (omega arith) in
    let (z, ez, rz) = digit_back ((a * 256 + b) / 2025) (omega arith) in
    let e : (a * 256 + b) % 45 + (a * 256 + b) / 45 % 45 * 45 + (a * 256 + b) / 2025 * 2025
        ≡ a * 256 + b =
      omega arith in
    let d : (a * 256 + b) / 256 ≡ a = omega arith in
    let m : (a * 256 + b) % 256 ≡ b = omega arith in
    rw (
      ex,
      ey,
      ez,
      rx index,
      ry (index + 1),
      rz (index + 2),
      e,
      le→ltb_false 0xffff (a * 256 + b) (omega arith),
      d,
      m,
      decode_chunks-encode_chunks (index + 3) bs hs,
    )

-- Bytes, at most 4096 of them, are encoded, and the text is decoded to the same bytes.
pub decode_base45-encode_base45 :
    (bs : Bytes)
    → All IsByte bs
    → length bs ≤ max_base45_binary_bytes
    → (t : Text) × (encode_base45 bs ≡ ok t) × (decode_base45 t ≡ ok bs)
unfolding encode_base45 decode_base45
decode_base45-encode_base45 bs h l =
    let n : ltb max_base45_text_chars (length (encode_chunks bs)) ≡ false =
      rw (length-encode_chunks bs h) (le→ltb_false _ _ (omega arith)) in
    let m : length (encode_chunks bs) % 3 == 1 ≡ false =
      rw (length-encode_chunks bs h) (ne→==_false _ _ (omega arith)) in
    (encode_chunks bs, rw (le→ltb_false _ _ l), rw (n, m, decode_chunks-encode_chunks 0 bs h))

index_of_sound : (c : ℕ) (s : Text) (n : ℕ) → index_of c s ≡ some n → get_elem? s n ≡ some c
unfolding index_of
index_of_sound c [] n h = cc
index_of_sound c (d ∷ s) zero h = elim (Option-cases (index_of c s)) [
  | inl e ↦ ground arith
  | inr (m, e) ↦ ground arith
]
index_of_sound c (d ∷ s) (suc n) h = elim (Option-cases (index_of c s)) [
  | inl e ↦ absurd (ground arith)
  | inr (m, e) ↦ index_of_sound c s n (ground arith)
]

get_elem?-lt : (s : Text) (n : ℕ) (c : ℕ) → get_elem? s n ≡ some c → n < length s
get_elem?-lt [] n c h = cc
get_elem?-lt (d ∷ s) zero c h = omega arith
get_elem?-lt (d ∷ s) (suc n) c h = omega (arith, get_elem?-lt s n c h)

-- A character that is read stands at the position that is read.
character_of_read :
    (c offset n : ℕ) → read_character c offset ≡ ok n → (character n ≡ c ∷ []) × (n < 45)
unfolding read_character character
character_of_read c offset n h = elim (Option-cases (index_of c base45_alphabet)) [
  | inl e ↦ absurd (ground arith)
  | inr (m, e) ↦
      let same : m ≡ n = ground arith in
      let found : get_elem? base45_alphabet n ≡ some c =
        index_of_sound c base45_alphabet n (e ∙ ap some same) in
      (rw (found, character), get_elem?-lt base45_alphabet n c found)
]

encode_last : (x y : ℕ) → x < 45 → encode_chunks ((x + y * 45) ∷ []) ≡ character x ++ character y
unfolding encode_chunks
encode_last x y h =
    let lo : (x + y * 45) % 45 ≡ x = omega arith in
    let hi : (x + y * 45) / 45 ≡ y = omega arith in rw (lo, hi)

encode_three :
    (x y z : ℕ) (output : Bytes)
    → x < 45
    → y < 45
    → encode_chunks (((x + y * 45 + z * 2025) / 256) ∷ ((x + y * 45 + z * 2025) % 256) ∷ output)
      ≡ character x ++ (character y ++ (character z ++ encode_chunks output))
unfolding encode_chunks
encode_three x y z output h k =
    let v : (x + y * 45 + z * 2025) / 256 * 256 + (x + y * 45 + z * 2025) % 256
        ≡ x + y * 45 + z * 2025 =
      omega arith in
    let lo : (x + y * 45 + z * 2025) % 45 ≡ x = omega arith in
    let mid : (x + y * 45 + z * 2025) / 45 % 45 ≡ y = omega arith in
    let hi : (x + y * 45 + z * 2025) / 2025 ≡ z = omega arith in rw (v, lo, mid, hi)

encode_chunks-decode_chunks :
    (index : ℕ) (t : Text) (bs : Bytes)
    → decode_chunks index t ≡ ok bs
    → (encode_chunks bs ≡ t) × All IsByte bs
unfolding encode_chunks decode_chunks
encode_chunks-decode_chunks index [] bs h =
    subst (λ o. (encode_chunks o ≡ []) × All IsByte o) (ok_injective [] bs h) (refl, tt)
encode_chunks-decode_chunks index (a ∷ []) bs h =
    let (first, r, h1) = >>=-eq-ok (read_character a index) _ h in absurd (ground arith)
encode_chunks-decode_chunks index (a ∷ b ∷ []) bs h =
    let (first, ra, h1) = >>=-eq-ok (read_character a index) _ h in
    let (second, rb, h2) = >>=-eq-ok (read_character b (index + 1)) _ h1 in
    let (u, g, h3) =
      >>=-eq-ok (refuse_if (ltb 0xff (first + second * 45)) (one_byte_overflow index)) _ h2 in
    let (ea, la) = character_of_read a index first ra in
    let (eb, lb) = character_of_read b (index + 1) second rb in
    subst (λ o. (encode_chunks o ≡ a ∷ b ∷ []) × All IsByte o) (ok_injective _ bs h3)
      (
        rw (encode_last first second la, ea, eb) refl,
        (omega (arith, ltb_false→le _ _ (passed _ _ g)), tt),
      )
encode_chunks-decode_chunks index (a ∷ b ∷ c ∷ t) bs h =
    let (first, ra, h1) = >>=-eq-ok (read_character a index) _ h in
    let (second, rb, h2) = >>=-eq-ok (read_character b (index + 1)) _ h1 in
    let (third, rc, h3) = >>=-eq-ok (read_character c (index + 2)) _ h2 in
    let (u, g, h4) =
      >>=-eq-ok
        (refuse_if (ltb 0xffff (first + second * 45 + third * 2025)) (two_byte_overflow index)) _
        h3 in
    let (output, ro, h5) = >>=-eq-ok (decode_chunks (index + 3) t) _ h4 in
    let (ea, la) = character_of_read a index first ra in
    let (eb, lb) = character_of_read b (index + 1) second rb in
    let (ec, lc) = character_of_read c (index + 2) third rc in
    let (same, byte) = encode_chunks-decode_chunks (index + 3) t output ro in
    let v : first + second * 45 + third * 2025 < 0x10000 =
      omega (arith, ltb_false→le _ _ (passed _ _ g)) in
    subst (λ o. (encode_chunks o ≡ a ∷ b ∷ c ∷ t) × All IsByte o) (ok_injective _ bs h5)
      (
        rw (encode_three first second third output la lb, ea, eb, ec, same) refl,
        (omega arith, (omega arith, byte)),
      )

-- A text that is decoded is the encoding of the bytes that it is decoded to, and these are bytes.
pub encode_base45-decode_base45 :
    (t : Text) (bs : Bytes) → decode_base45 t ≡ ok bs → (encode_base45 bs ≡ ok t) × All IsByte bs
unfolding encode_base45 decode_base45
encode_base45-decode_base45 t bs h =
    let (u, g, h1) =
      >>=-eq-ok (refuse_if (ltb max_base45_text_chars (length t)) text_too_long) _ h in
    let (u', g', h2) = >>=-eq-ok (refuse_if (length t % 3 == 1) invalid_length) _ h1 in
    let (same, byte) = encode_chunks-decode_chunks 0 t bs h2 in
    let short : length t < 6145 = omega (arith, ltb_false→le _ _ (passed _ _ g)) in
    let n : length (encode_chunks bs) ≡ length t = ap length same in
    (
      rw
          (
            le→ltb_false 4096 (length bs) (omega (arith, n, short, length-encode_chunks bs byte)),
            same,
          )
          refl,
      byte,
    )
