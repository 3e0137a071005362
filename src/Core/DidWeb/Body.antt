-- ===== src/Core/DidWeb/Body.antt =====
-- trust-policy.ts: readBoundedBody. A body that is read in chunks is the list of what `read` gives,
-- up to the end: a chunk, none where the value is undefined, an error where the promise is rejected.
-- `Number` of a text is a parameter; none where it is not finite.
use credaryn.Base.{
  pos, int_sub, is_positive, ◌&&◌, is_negative, not, length, false, ◌++◌, ◌+◌, ltb, none, some,
  if◌then◌else◌, true, err, ok, ℤ, List, Option, Result, Bool, ℕ, ◌∷◌, [],
}
use credaryn.Base.Text.{Bytes, Text}

pub data Body : Type 0 where
  buffer : Result (Unit {0}) Bytes → Body
  stream : List (Result (Unit {0}) (Option Bytes)) → Body

pub record Response : Type 0 where
  pub is_ok : Bool
  pub content_length : Option Text
  pub body : Body

abbrev pub prepend : Bytes → Result (Unit {0}) (Option Bytes) → Result (Unit {0}) (Option Bytes)
prepend chunk (err e) = err e
prepend chunk (ok none) = ok none
prepend chunk (ok (some rest)) = ok (some (chunk ++ rest))

-- The loop, from the number of bytes so far; it gives the chunks, combined.
unfoldable pub read_chunks :
    ℕ → ℕ → List (Result (Unit {0}) (Option Bytes)) → Result (Unit {0}) (Option Bytes)
read_chunks max_bytes total [] = ok (some [])
read_chunks max_bytes total (err e ∷ chunks) = err e
read_chunks max_bytes total (ok none ∷ chunks) = read_chunks max_bytes total chunks
read_chunks max_bytes total (ok (some chunk) ∷ chunks) =
    let rest = read_chunks max_bytes (total + length chunk) chunks in
    if ltb max_bytes (total + length chunk) then ok none else prepend chunk rest

unfoldable pub read_body : ℕ → Body → Result (Unit {0}) (Option Bytes)
read_body max_bytes (buffer (err e)) = err e
read_body max_bytes (buffer (ok bytes)) =
    ok (if ltb max_bytes (length bytes) then none else some bytes)
read_body max_bytes (stream chunks) = read_chunks max_bytes 0 chunks

module _ (to_number : Text → Option ℤ) where
  -- The test of the `content-length` header.
  unfoldable pub allows_length : ℕ → Option Text → Bool
  allows_length max_bytes none = true
  allows_length max_bytes (some declared) = elim (to_number declared) [
    | none ↦ false
    | some n ↦ not (is_negative n) && not (is_positive (int_sub n (pos max_bytes)))
  ]

  unfoldable pub read_bounded_body : Response → ℕ → Result (Unit {0}) (Option Bytes)
  read_bounded_body response max_bytes =
      let bytes = read_body max_bytes response.body in
      if allows_length max_bytes response.content_length then bytes else ok none
