-- ===== src/Core/DidWeb/Address.antt =====
-- trust-policy.ts: isPrivateIpv4, on the text of an address.
use credaryn.Base.{false, ◌∷◌, []}
use credaryn.Base.Split.{split, is_digit, read_digits}
use credaryn.Base.Text.{Text}
use credaryn.Base.{
  length, ltb, leb, some, ◌&&◌, ◌||◌, true, all, if◌then◌else◌, ◌==◌, none, ℕ, Option, List, Bool,
}

-- `/^\d{1,3}$/`
unfoldable pub is_octet_text : Text → Bool
is_octet_text part = all is_digit part && ltb 0 (length part) && leb (length part) 3

-- The octet that a part stands for; NaN and a number above 255 are none.
unfoldable pub read_octet : Text → Option ℕ
read_octet part =
    if is_octet_text part && leb (read_digits 0 part) 255 then some (read_digits 0 part) else none

pub record Octets : Type 0 where
  pub a : ℕ
  pub b : ℕ
  pub c : ℕ
  pub d : ℕ

abbrev all_read : Option ℕ → Option ℕ → Option ℕ → Option ℕ → Option Octets
all_read (some a) (some b) (some c) (some d) = some (record { a = a; b = b; c = c; d = d })
all_read _ _ _ _ = none

unfoldable pub read_octets : List Text → Option Octets
read_octets (a ∷ b ∷ c ∷ d ∷ []) =
    all_read (read_octet a) (read_octet b) (read_octet c) (read_octet d)
read_octets _ = none

-- The tests of `isPrivateIpv4`, one after the other.
unfoldable pub is_private_octets : Octets → Bool
is_private_octets o =
    if o.a == 0
    then true
    else if o.a == 10
    then true
    else if o.a == 127
    then true
    else if o.a == 169 && o.b == 254
    then true
    else if o.a == 172 && leb 16 o.b && leb o.b 31
    then true
    else if o.a == 192 && o.b == 168
    then true
    else if o.a == 100 && leb 64 o.b && leb o.b 127
    then true
    else if o.a == 192 && o.b == 0 && o.c == 0
    then true
    else if o.a == 192 && o.b == 0 && o.c == 2
    then true
    else if o.a == 198 && (o.b == 18 || o.b == 19)
    then true
    else if o.a == 198 && o.b == 51 && o.c == 100
    then true
    else if o.a == 203 && o.b == 0 && o.c == 113
    then true
    else if leb 224 o.a
    then true
    else false

unfoldable pub is_private_ipv4 : Text → Bool
is_private_ipv4 address = elim (read_octets (split b'.' address)) [
  | none ↦ true
  | some o ↦ is_private_octets o
]
