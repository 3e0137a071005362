-- ===== src/Core/DidWeb/Bounded.antt =====
-- trust-policy.ts: what readBoundedBody returns.
use credaryn.Base.{
  le→ltb_false, false, ap, ◌∙◌, ltb_false→le, length-append, ltb, sym, Bool-cases, inr, refl, arith,
  inl, ok_injective, Option-cases, some_injective, true, ◌++◌, length, ◌↔◌, none, ok, ◌+◌, some,
  err, ◌≤◌, ◌≡◌, Result, ℤ, List, Option, ℕ, ◌∷◌, [],
}
use credaryn.Core.DidWeb.Body.{
  stream, prepend, buffer, Body, Response, read_chunks, read_body, read_bounded_body, allows_length,
}
use credaryn.Base.Text.{Bytes, Text}

-- The bytes of all chunks, none where a promise is rejected.
abbrev pub chunk_contents : List (Result (Unit {0}) (Option Bytes)) → Option Bytes
chunk_contents [] = some []
chunk_contents (err e ∷ chunks) = none
chunk_contents (ok none ∷ chunks) = chunk_contents chunks
chunk_contents (ok (some chunk) ∷ chunks) = elim (chunk_contents chunks) [
  | none ↦ none
  | some rest ↦ some (chunk ++ rest)
]

abbrev pub contents : Body → Option Bytes
contents (buffer (err e)) = none
contents (buffer (ok bytes)) = some bytes
contents (stream chunks) = chunk_contents chunks

prepend-eq-some :
    (chunk : Bytes) (read : Result (Unit {0}) (Option Bytes)) (bytes : Bytes)
    → prepend chunk read ≡ ok (some bytes)
    → (rest : Bytes) × (read ≡ ok (some rest)) × (chunk ++ rest ≡ bytes)
prepend-eq-some chunk (err e) bytes h = cc
prepend-eq-some chunk (ok none) bytes h = cc
prepend-eq-some chunk (ok (some rest)) bytes h = (rest, refl, some_injective (ok_injective _ _ h))

read_chunks-contents :
    (max_bytes total : ℕ) (chunks : List (Result (Unit {0}) (Option Bytes))) (bytes : Bytes)
    → total ≤ max_bytes
    → read_chunks max_bytes total chunks ≡ ok (some bytes)
    → (chunk_contents chunks ≡ some bytes) × (total + length bytes ≤ max_bytes)
unfolding read_chunks
read_chunks-contents max_bytes total [] bytes below h =
    let same : [] ≡ bytes = some_injective (ok_injective _ _ h) in rw⁻¹ same (refl, omega arith)
read_chunks-contents max_bytes total (err e ∷ chunks) bytes below h = cc
read_chunks-contents max_bytes total (ok none ∷ chunks) bytes below h =
    read_chunks-contents max_bytes total chunks bytes below h
read_chunks-contents max_bytes total (ok (some chunk) ∷ chunks) bytes below h =
    elim (Bool-cases (ltb max_bytes (total + length chunk))) [
      | inl over ↦
          let bad : ◌≡◌ {A = Result (Unit {0}) (Option Bytes)} (ok none) (ok (some bytes)) =
            rw over at h in
          cc
      | inr under ↦
          let (rest, r, joined) =
            prepend-eq-some chunk (read_chunks max_bytes (total + length chunk) chunks) bytes
              (rw under at h) in
          let (found, size) =
            read_chunks-contents max_bytes (total + length chunk) chunks rest
              (ltb_false→le max_bytes (total + length chunk) under) r in
          rw⁻¹ joined (rw found refl, omega (arith, length-append chunk rest))
    ]

contents-read_chunks :
    (max_bytes total : ℕ) (chunks : List (Result (Unit {0}) (Option Bytes))) (bytes : Bytes)
    → chunk_contents chunks ≡ some bytes
    → total + length bytes ≤ max_bytes
    → read_chunks max_bytes total chunks ≡ ok (some bytes)
unfolding read_chunks
contents-read_chunks max_bytes total [] bytes c h =
    let same : [] ≡ bytes = some_injective c in rw same refl
contents-read_chunks max_bytes total (err e ∷ chunks) bytes c h = cc
contents-read_chunks max_bytes total (ok none ∷ chunks) bytes c h =
    contents-read_chunks max_bytes total chunks bytes c h
contents-read_chunks max_bytes total (ok (some chunk) ∷ chunks) bytes c h =
    elim (Option-cases (chunk_contents chunks)) [
      | inl missing ↦ let bad : none ≡ some bytes = rw missing at c in cc
      | inr (rest, r) ↦
          let same : chunk ++ rest ≡ bytes = some_injective (rw r at c) in
          let size : length chunk + length rest ≡ length bytes =
            sym (length-append chunk rest) ∙ ap length same in
          let under : ltb max_bytes (total + length chunk) ≡ false =
            le→ltb_false max_bytes (total + length chunk) (omega (arith, size)) in
          rw
            (
              under,
              contents-read_chunks max_bytes (total + length chunk) chunks rest r
                  (omega (arith, size)),
              same,
            )
            refl
    ]

read_body-contents :
    (max_bytes : ℕ) (body : Body) (bytes : Bytes)
    → read_body max_bytes body ≡ ok (some bytes)
    → (contents body ≡ some bytes) × (length bytes ≤ max_bytes)
unfolding read_body
read_body-contents max_bytes (buffer (err e)) bytes h = cc
read_body-contents max_bytes (buffer (ok content)) bytes h =
    elim (Bool-cases (ltb max_bytes (length content))) [
      | inl over ↦ let bad : none ≡ some bytes = ok_injective _ _ (rw over at h) in cc
      | inr under ↦
          let same : content ≡ bytes = some_injective (ok_injective _ _ (rw under at h)) in
          rw⁻¹ same (refl, ltb_false→le max_bytes (length content) under)
    ]
read_body-contents max_bytes (stream chunks) bytes h =
    let (found, size) = read_chunks-contents max_bytes 0 chunks bytes (omega arith) h in
    (found, omega (arith, size))

contents-read_body :
    (max_bytes : ℕ) (body : Body) (bytes : Bytes)
    → contents body ≡ some bytes
    → length bytes ≤ max_bytes
    → read_body max_bytes body ≡ ok (some bytes)
unfolding read_body
contents-read_body max_bytes (buffer (err e)) bytes c h = cc
contents-read_body max_bytes (buffer (ok content)) bytes c h =
    let same : content ≡ bytes = some_injective c in
    rw (same, le→ltb_false max_bytes (length bytes) h) refl
contents-read_body max_bytes (stream chunks) bytes c h =
    contents-read_chunks max_bytes 0 chunks bytes c (omega arith)

-- The reader of a body returns bytes exactly when the declared length is allowed, no read is
-- rejected, and they are the bytes of all chunks together, within the limit.
pub read_bounded_body_iff :
    (to_number : Text → Option ℤ) (response : Response) (max_bytes : ℕ) (bytes : Bytes)
    → (read_bounded_body to_number response max_bytes ≡ ok (some bytes)) ↔ (
        (allows_length to_number max_bytes response.content_length ≡ true)
        × (contents response.body ≡ some bytes)
        × (length bytes ≤ max_bytes))
unfolding read_bounded_body
read_bounded_body_iff to_number response max_bytes bytes =
    elim (Bool-cases (allows_length to_number max_bytes response.content_length)) [
      | inl allowed ↦ rw allowed (
        (λ h.
            let (found, size) = read_body-contents max_bytes response.body bytes h in
            (refl, found, size)),
        (λ h. contents-read_body max_bytes response.body bytes h.1 h.2),
      )
      | inr refused ↦ rw refused (
        (λ h. let bad : none ≡ some bytes = ok_injective _ _ h in cc),
        (λ h. let bad : false ≡ true = h.0 in cc),
      )
    ]
