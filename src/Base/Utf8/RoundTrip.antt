-- ===== src/Base/Utf8/RoundTrip.antt =====
-- Encoding text and decoding it again.
use credaryn.Base.Utf8.{
  to_points, units_of, from_points, encode_point, encode_points, utf8_encode, utf8_decode, start,
  run, strip_bom,
}
use credaryn.Base.Text.{Text, Bytes, starts_with}
use credaryn.Base.Lists.{All}
use Prim.Native.Nat.{ℕ, ◌<◌, ◌≤◌}
use mathlib.Core.Path.{◌≡◌, refl, ap, ◌∙◌}
use mathlib.Core.Logic.{◌⊎◌}
use mathlib.Core.Bool.{false}
use mathlib.Core.Option
use mathlib.Core.Option.{Option, none, some}
use mathlib.Core.List.{List, [], ◌∷◌, ◌++◌}
use native.Mathlib.Omega.{arith}

-- A Unicode scalar value.
abbrev pub IsScalar : ℕ → Type 0
IsScalar p = (p < 0xd800) ⊎ ((0xe000 ≤ p) × (p < 0x110000))

run-encode_point :
    (p : ℕ) (rest : Bytes)
    → IsScalar p
    → run start (encode_point p ++ rest) ≡ Option.map (λ ps. p ∷ ps) (run start rest)
unfolding run encode_point
run-encode_point p rest h = ground arith

to_points-units_of :
    (p : ℕ) (rest : Text) → IsScalar p → to_points (units_of p ++ rest) ≡ p ∷ to_points rest
unfolding to_points units_of
to_points-units_of p [] h = ground arith
to_points-units_of p (v ∷ rest) h = ground arith

to_points-from_points : (ps : List ℕ) → All IsScalar ps → to_points (from_points ps) ≡ ps
unfolding from_points
to_points-from_points [] h = unfold to_points in refl
to_points-from_points (p ∷ ps) (h, hs) =
    to_points-units_of p (from_points ps) h ∙ ap (λ qs. p ∷ qs) (to_points-from_points ps hs)

run-encode_points : (ps : List ℕ) → All IsScalar ps → run start (encode_points ps) ≡ some ps
unfolding encode_points
run-encode_points [] h = unfold run in refl
run-encode_points (p ∷ ps) (h, hs) =
    run-encode_point p (encode_points ps) h
    ∙ ap (Option.map (λ qs. p ∷ qs)) (run-encode_points ps hs)

-- Only the byte order mark itself is encoded by its three bytes.
strip_bom-encode_points :
    (ps : List ℕ)
    → All IsScalar ps
    → starts_with ps (0xfeff ∷ []) ≡ false
    → strip_bom (encode_points ps) ≡ encode_points ps
unfolding strip_bom encode_points starts_with encode_point
strip_bom-encode_points [] h k = refl
strip_bom-encode_points (p ∷ ps) (h, hs) k = ground arith

starts_with-from_points :
    (ps : List ℕ)
    → All IsScalar ps
    → starts_with (from_points ps) (0xfeff ∷ []) ≡ starts_with ps (0xfeff ∷ [])
unfolding from_points units_of starts_with
starts_with-from_points [] h = refl
starts_with-from_points (p ∷ ps) (h, hs) = ground arith

-- Text made of whole characters, as `isWellFormed` tests it, that has no leading byte order mark.
pub record IsPlain (s : Text) : Type 0 where
  pub points : List ℕ
  pub scalar : All IsScalar points
  pub same : s ≡ from_points points
  pub no_mark : starts_with s (0xfeff ∷ []) ≡ false

pub utf8_decode-utf8_encode : (s : Text) → IsPlain s → utf8_decode (utf8_encode s) ≡ some s
unfolding utf8_decode utf8_encode
utf8_decode-utf8_encode s h = rw (
  h.same,
  to_points-from_points h.points h.scalar,
  strip_bom-encode_points h.points h.scalar
      (rw (← starts_with-from_points h.points h.scalar) (rw h.same at h.no_mark)),
  run-encode_points h.points h.scalar,
)
