-- ===== src/Base/Utf8/Ascii.antt =====
-- Text of code units below 128.
use credaryn.Base.Text.{Text, starts_with}
use credaryn.Base.Utf8.{units_of, from_points}
use credaryn.Base.{
  inr, lt→ltb, refl, arith, ltb→lt, inl, false, Bool-cases, [], sym, ltb, All, ◌∷◌, all, true, Bool,
  ◌≡◌,
}
use credaryn.Base.Utf8.RoundTrip.{IsScalar, IsPlain}

abbrev pub is_ascii : Text → Bool
is_ascii s = all (λ c. ltb c 128) s

All-IsScalar : (s : Text) → is_ascii s ≡ true → All IsScalar s
All-IsScalar [] h = tt
All-IsScalar (c ∷ s) h = elim (Bool-cases (ltb c 128)) [
  | inl low ↦ (inl (omega (arith, ltb→lt c 128 low)), All-IsScalar s (rw low at h))
  | inr high ↦ absurd (ground arith)
]

from_points_ascii : (s : Text) → is_ascii s ≡ true → from_points s ≡ s
unfolding from_points units_of
from_points_ascii [] h = refl
from_points_ascii (c ∷ s) h = elim (Bool-cases (ltb c 128)) [
  | inl low ↦
      let small = ltb→lt c 128 low in
      rw (lt→ltb c 0x10000 (omega arith), from_points_ascii s (rw low at h)) refl
  | inr high ↦ absurd (ground arith)
]

no_mark_ascii : (s : Text) → is_ascii s ≡ true → starts_with s (0xfeff ∷ []) ≡ false
unfolding starts_with
no_mark_ascii [] h = refl
no_mark_ascii (c ∷ s) h = ground arith

pub ascii-IsPlain : (s : Text) → is_ascii s ≡ true → IsPlain s
ascii-IsPlain s h = record {
  points = s;
  scalar = All-IsScalar s h;
  same = sym (from_points_ascii s h);
  no_mark = no_mark_ascii s h;
}
