-- ===== src/Base/Utf8.antt =====
-- `TextEncoder` and `TextDecoder("utf-8", { fatal: true })` between code units and bytes: lone
-- surrogates are written as U+FFFD, a leading byte order mark is dropped by the decoder.
pub mod RoundTrip
pub mod Ascii
use credaryn.Base.Tests.{ltb, leb, ◌==◌, if◌then◌else◌}
use credaryn.Base.Text.{Text, Bytes, starts_with}
use credaryn.Base.Lists.{drop}
use Prim.Native.Nat.{ℕ, zero, suc, ◌+◌, ◌-◌, ◌*◌, ◌/◌, ◌%◌, ◌<◌}
use mathlib.Core.Bool.{Bool, ◌&&◌}
use mathlib.Core.Option
use mathlib.Core.Option.{Option, none, some}
use mathlib.Core.List.{List, [], ◌∷◌, ◌++◌}

pub is_high : ℕ → Bool
is_high u = leb 0xd800 u && ltb u 0xdc00

pub is_low : ℕ → Bool
is_low u = leb 0xdc00 u && ltb u 0xe000

-- A surrogate that stands alone becomes the replacement character.
pub scalar_of : ℕ → ℕ
scalar_of u = if leb 0xd800 u && ltb u 0xe000 then 0xfffd else u

pub to_points : Text → List ℕ
unfolding is_high is_low scalar_of
to_points [] = []
to_points (u ∷ []) = scalar_of u ∷ []
to_points (u ∷ v ∷ rest) =
    let pair = (0x10000 + (u - 0xd800) * 0x400 + (v - 0xdc00)) ∷ to_points rest in
    let single = scalar_of u ∷ to_points (v ∷ rest) in
    if is_high u && is_low v then pair else single

pub units_of : ℕ → Text
units_of p =
    if ltb p 0x10000
    then p ∷ []
    else (0xd800 + (p - 0x10000) / 0x400) ∷ (0xdc00 + (p - 0x10000) % 0x400) ∷ []

unfoldable pub from_points : List ℕ → Text
unfolding units_of
from_points [] = []
from_points (p ∷ ps) = units_of p ++ from_points ps

pub encode_point : ℕ → Bytes
encode_point p =
    if ltb p 0x80
    then p ∷ []
    else if ltb p 0x800
    then (0xc0 + p / 0x40) ∷ (0x80 + p % 0x40) ∷ []
    else if ltb p 0x10000
    then (0xe0 + p / 0x1000) ∷ (0x80 + p / 0x40 % 0x40) ∷ (0x80 + p % 0x40) ∷ []
    else (0xf0 + p / 0x40000)
      ∷ (0x80 + p / 0x1000 % 0x40)
      ∷ (0x80 + p / 0x40 % 0x40)
      ∷ (0x80 + p % 0x40)
      ∷ []

pub encode_points : List ℕ → Bytes
unfolding encode_point
encode_points [] = []
encode_points (p ∷ ps) = encode_point p ++ encode_points ps

-- `new TextEncoder().encode(s)`.
unfoldable pub utf8_encode : Text → Bytes
unfolding to_points encode_points
utf8_encode s = encode_points (to_points s)

-- The decoder's state: bytes that the current character still needs, its value so far, and the
-- bounds of the next byte.
pub record Decoder : Type 0 where
  pub needed : ℕ
  pub point : ℕ
  pub lower : ℕ
  pub upper : ℕ

abbrev pub start : Decoder
start = record { needed = 0; point = 0; lower = 0x80; upper = 0xbf }

pub data Step : Type 0 where
  fail : Step
  more : Decoder → Step
  emit : ℕ → Step

abbrev pub expect : ℕ → ℕ → ℕ → ℕ → Step
expect n p lo hi = more (record { needed = n; point = p; lower = lo; upper = hi })

pub lead : ℕ → Step
lead b =
    if ltb b 0x80
    then emit b
    else if ltb b 0xc2
    then fail
    else if ltb b 0xe0
    then expect 1 (b - 0xc0) 0x80 0xbf
    else if ltb b 0xf0
    then expect 2 (b - 0xe0) (if b == 0xe0 then 0xa0 else 0x80) (if b == 0xed then 0x9f else 0xbf)
    else if ltb b 0xf5
    then expect 3 (b - 0xf0) (if b == 0xf0 then 0x90 else 0x80) (if b == 0xf4 then 0x8f else 0xbf)
    else fail

abbrev continued : ℕ → ℕ → Step
continued zero p = emit p
continued (suc n) p = expect (suc n) p 0x80 0xbf

pub step_at : ℕ → Decoder → ℕ → Step
unfolding lead
step_at zero d b = lead b
step_at (suc n) d b =
    if leb d.lower b && leb b d.upper then continued n (d.point * 0x40 + (b - 0x80)) else fail

abbrev at_end : ℕ → Option (List ℕ)
at_end zero = some []
at_end (suc n) = none

pub run : Decoder → Bytes → Option (List ℕ)
unfolding step_at
run d [] = at_end d.needed
run d (b ∷ bs) = elim (step_at d.needed d b) [
  | fail ↦ none
  | more d' ↦ run d' bs
  | emit p ↦ Option.map (λ ps. p ∷ ps) (run start bs)
]

abbrev pub bom : Bytes
bom = 0xef ∷ 0xbb ∷ 0xbf ∷ []

pub strip_bom : Bytes → Bytes
unfolding starts_with
strip_bom bs = if starts_with bs bom then drop 3 bs else bs

-- `new TextDecoder("utf-8", { fatal: true }).decode(bytes)`; `none` is the exception.
unfoldable pub utf8_decode : Bytes → Option Text
unfolding run strip_bom from_points
utf8_decode bs = Option.map from_points (run start (strip_bom bs))
