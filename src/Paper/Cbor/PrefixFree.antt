-- ===== src/Paper/Cbor/PrefixFree.antt =====
-- The encodings of cbor.ts beside each other.
use credaryn.Paper.Cbor.Encode.{encode_deterministic_cbor}
use credaryn.Paper.Cbor.{DecodeError, Value}
use credaryn.Base.Text.{Bytes}
use credaryn.Paper.Cbor.Canonical.{IsCanonical}
use credaryn.Base.{ok_injective, ap, ◌∙◌, sym, Result, arith, ◌++◌, ok, ◌≡◌}
use credaryn.Paper.Cbor.RoundTrip.{read_initial-encode_value}
use credaryn.Paper.Cbor.Decode.{read_value, read_initial}

-- If the encodings of two canonical values start the same input, then the values are equal and the
-- rest of the input is the same.
pub encode_cbor-prefix_free :
    (v w : Value) (out out' rest rest' : Bytes)
    → IsCanonical v 0
    → IsCanonical w 0
    → encode_deterministic_cbor v ≡ ok out
    → encode_deterministic_cbor w ≡ ok out'
    → out ++ rest ≡ out' ++ rest'
    → (v ≡ w) × (rest ≡ rest')
unfolding encode_deterministic_cbor
encode_cbor-prefix_free v w out out' rest rest' c d p q e =
    let first = read_initial-encode_value v 0 16 out rest (omega arith) c p in
    let second = read_initial-encode_value w 0 16 out' rest' (omega arith) d q in
    let same : ◌≡◌ {A = Result DecodeError (Value × Bytes)} (ok (v, rest)) (ok (w, rest')) =
      sym first ∙ (ap (read_initial (read_value 16)) e ∙ second) in
    let pairs = ok_injective (v, rest) (w, rest') same in
    (ap (λ (p : Value × Bytes). p.0) pairs, ap (λ (p : Value × Bytes). p.1) pairs)
