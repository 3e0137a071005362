-- ===== src/Examples/Der.antt =====
-- ECDSA signatures: cose.ts and der-to-cose.ts on the signature with r = 128 and s = 1.
use credaryn.Base.Text.{Bytes}
use credaryn.Paper.Der.{padded_integer, raw_to_der, der_to_cose_signature, der_code, der_to_raw}
use credaryn.Base.{refl, err, ◌++◌, [], ok, replicate, ◌∷◌, ◌≡◌}
use credaryn.Paper.Der.Raw.{der_to_raw-raw_to_der}
use credaryn.Paper.Der.Strict.{der_to_cose_signature-refines}

abbrev raw : Bytes
raw = replicate 31 0 ++ 128 ∷ (replicate 31 0 ++ 1 ∷ [])

abbrev der : Bytes
der = 0x30 ∷ 7 ∷ 2 ∷ 2 ∷ 0 ∷ 128 ∷ 2 ∷ 1 ∷ 1 ∷ []

raw_to_der_run : raw_to_der raw ≡ ok der
unfolding der_code
raw_to_der_run = refl

der_to_cose_run : der_to_cose_signature der ≡ ok raw
unfolding der_code
der_to_cose_run = refl

-- An integer with a needless zero is read by the one and refused by the other.
padded_run :
    (der_to_raw (0x30 ∷ 7 ∷ 2 ∷ 2 ∷ 0 ∷ 1 ∷ 2 ∷ 1 ∷ 1 ∷ [])
      ≡ ok (replicate 31 0 ++ 1 ∷ (replicate 31 0 ++ 1 ∷ [])))
    × (der_to_cose_signature (0x30 ∷ 7 ∷ 2 ∷ 2 ∷ 0 ∷ 1 ∷ 2 ∷ 1 ∷ 1 ∷ []) ≡ err padded_integer)
unfolding der_code
padded_run = (refl, refl)

der_to_raw-raw_to_der_example : (d : Bytes) × (raw_to_der raw ≡ ok d) × (der_to_raw d ≡ ok raw)
der_to_raw-raw_to_der_example = der_to_raw-raw_to_der raw refl

der_to_cose_signature-refines_example : der_to_raw der ≡ ok raw
der_to_cose_signature-refines_example = der_to_cose_signature-refines der raw der_to_cose_run
