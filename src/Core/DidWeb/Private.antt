-- ===== src/Core/DidWeb/Private.antt =====
-- trust-policy.ts: isPrivateIpv6, isPrivateAddress, isIpLiteral and resolvesToPublicAddress. `isIP` of
-- node:net is a parameter. Bit masks of bytes are written with / and %. The answer of a lookup is its
-- addresses; a rejected promise is an error.
use credaryn.Core.DidWeb.Ipv6.{ipv6_to_bytes}
use credaryn.Core.DidWeb.Address.{is_private_ipv4}
use credaryn.Base.{
  ◌-◌, drop, ◌%◌, take, ok, ◌/◌, all, ◌&&◌, false, some, [], length, true, err, none, ◌==◌, ltb,
  ◌∷◌, not, List, get_elem?, Bool, ◌+◌, if◌then◌else◌, ◌++◌, Result, ℕ,
}
use credaryn.Base.Text.{ends_with, list_eq, starts_with, Bytes, Text}

abbrev pub byte_at : ℕ → Bytes → ℕ
byte_at n bytes = elim (get_elem? bytes n) [ none ↦ 0 | some b ↦ b ]

abbrev is_zero_byte : ℕ → Bool
is_zero_byte b = b == 0

abbrev pub decimal_digit : ℕ → ℕ
decimal_digit n = b'0' + n

-- `${byte}`, of a number below 1000.
unfoldable pub print_octet : ℕ → Text
print_octet n =
    if ltb n 10
    then decimal_digit n ∷ []
    else if ltb n 100
    then decimal_digit (n / 10) ∷ decimal_digit (n % 10) ∷ []
    else decimal_digit (n / 100) ∷ decimal_digit (n / 10 % 10) ∷ decimal_digit (n % 10) ∷ []

-- `${a}.${b}.${c}.${d}`
unfoldable pub dotted : ℕ → ℕ → ℕ → ℕ → Text
dotted a b c d =
    print_octet a ++ b'.' ∷ (print_octet b ++ b'.' ∷ (print_octet c ++ b'.' ∷ print_octet d))

unfoldable pub is_private_ipv6 : Bytes → Bool
is_private_ipv6 bytes =
    if not (length bytes == 16)
    then true
    else if all is_zero_byte bytes
    then true
    else if all is_zero_byte (take 15 bytes) && byte_at 15 bytes == 1
    then true
    else if byte_at 0 bytes / 2 == 0x7e
    then true
    else if byte_at 0 bytes == 0xfe && byte_at 1 bytes / 64 == 2
    then true
    else if byte_at 0 bytes == 0xff
    then true
    else if byte_at 0 bytes == 0x20
        && byte_at 1 bytes == 1
        && byte_at 2 bytes == 0x0d
        && byte_at 3 bytes == 0xb8
    then true
    else if all is_zero_byte (take 10 bytes) && byte_at 10 bytes == 0xff && byte_at 11 bytes == 0xff
    then is_private_ipv4
        (dotted (byte_at 12 bytes) (byte_at 13 bytes) (byte_at 14 bytes) (byte_at 15 bytes))
    else false

module _ (is_ip : Text → ℕ) where
  unfoldable pub is_private_address : Text → Bool
  is_private_address address =
      if is_ip address == 4
      then is_private_ipv4 address
      else if is_ip address == 6
      then elim (ipv6_to_bytes address) [ none ↦ true | some bytes ↦ is_private_ipv6 bytes ]
      else true

  unfoldable pub is_ip_literal : Text → Bool
  is_ip_literal host =
      if starts_with host (b'[' ∷ []) && ends_with host (b']' ∷ [])
      then not (is_ip (drop 1 (take (length host - 1) host)) == 0)
      else not (is_ip host == 0)

  abbrev pub is_public : Text → Bool
  is_public address = not (list_eq address []) && not (is_private_address address)

  unfoldable pub resolves_to_public_address : Text → (Text → Result (Unit {0}) (List Text)) → Bool
  resolves_to_public_address hostname lookup = elim (lookup hostname) [
    | err _ ↦ false
    | ok addresses ↦ not (length addresses == 0) && all is_public addresses
  ]
