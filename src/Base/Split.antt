-- ===== src/Base/Split.antt =====
-- JavaScript's `split`, `join` and decimal texts, on strings as lists of code units.
use credaryn.Base.Text.{Text}
use credaryn.Base.{
  inr, inl, ◌||◌, ==_iff, Bool-cases, List, [], ◌∷◌, ◌++◌, ℕ, Bool, true, false, ◌==◌, ◌&&◌, leb,
  if◌then◌else◌, ◌+◌, ◌-◌, ◌*◌, Option, none, some, ◌≡◌, refl,
}

-- Puts a character in front of the first text.
abbrev pub cons_first : ℕ → List Text → List Text
cons_first c [] = (c ∷ []) ∷ []
cons_first c (s ∷ parts) = (c ∷ s) ∷ parts

-- `s.split(separator)`, for a separator of one character.
unfoldable pub split : ℕ → Text → List Text
split separator [] = [] ∷ []
split separator (c ∷ s) =
    let rest = split separator s in if c == separator then [] ∷ rest else cons_first c rest

-- `parts.join(separator)`.
unfoldable pub join : Text → List Text → Text
join separator [] = []
join separator (s ∷ []) = s
join separator (s ∷ t ∷ parts) = s ++ (separator ++ join separator (t ∷ parts))

abbrev pub is_digit : ℕ → Bool
is_digit c = leb b'0' c && leb c b'9'

-- The number that a text of digits stands for, behind those before it.
unfoldable pub read_digits : ℕ → Text → ℕ
read_digits n [] = n
read_digits n (c ∷ s) = read_digits (n * 10 + (c - b'0')) s

-- The text before the first occurrence of a character, the whole text if there is none.
unfoldable pub before : ℕ → Text → Text
before separator [] = []
before separator (c ∷ s) = let rest = before separator s in if c == separator then [] else c ∷ rest

-- `s.includes(c)`.
unfoldable pub includes : ℕ → Text → Bool
includes d [] = false
includes d (c ∷ s) = c == d || includes d s

-- The text behind the first occurrence of a character.
unfoldable pub after_first : ℕ → Text → Option Text
after_first separator [] = none
after_first separator (c ∷ s) =
    let rest = after_first separator s in if c == separator then some s else rest

-- The texts up to the last occurrence of a character, this one included, and behind it.
unfoldable pub split_last : ℕ → Text → Option (Text × Text)
split_last separator [] = none
split_last separator (c ∷ s) = elim (split_last separator s) [
  | some (front, back) ↦ some (c ∷ front, back)
  | none ↦ if c == separator then some (c ∷ [], s) else none
]

pub split-append :
    (separator : ℕ) (s t : Text)
    → includes separator s ≡ false
    → split separator (s ++ separator ∷ t) ≡ s ∷ split separator t
unfolding split includes
split-append separator [] t h = rw ((==_iff separator separator).1 refl) refl
split-append separator (c ∷ s) t h = elim (Bool-cases (c == separator)) [
  | inl same ↦ let bad : true ≡ false = rw same at h in cc
  | inr other ↦ rw (other, split-append separator s t (rw other at h)) refl
]

pub split-single :
    (separator : ℕ) (s : Text) → includes separator s ≡ false → split separator s ≡ s ∷ []
unfolding split includes
split-single separator [] h = refl
split-single separator (c ∷ s) h = elim (Bool-cases (c == separator)) [
  | inl same ↦ let bad : true ≡ false = rw same at h in cc
  | inr other ↦ rw (other, split-single separator s (rw other at h)) refl
]
