-- ===== src/Core/DidWeb/Ipv6.antt =====
-- trust-policy.ts: ipv6ToBytes. Bit operations are written with / and %.
use credaryn.Base.Options.{◌>>=◌}
use credaryn.Base.{◌∷◌}
use credaryn.Base.Split.{cons_first, split, before, includes, split_last, is_digit}
use credaryn.Core.DidWeb.Address.{read_octets}
use credaryn.Base.Text.{codes, Bytes, Text}
use credaryn.Base.{
  false, replicate, true, ◌+◌, ◌&&◌, [], ◌++◌, ◌-◌, ◌*◌, ltb, leb, length, ◌==◌, none, ◌%◌,
  if◌then◌else◌, some, ◌∷◌, get_elem?, ◌/◌, Option, ℕ, List,
}

-- `value.split("::")`
unfoldable pub split_double : Text → List Text
split_double [] = [] ∷ []
split_double (c ∷ []) = (c ∷ []) ∷ []
split_double (c ∷ d ∷ s) = elim (c == b':' && d == b':') [
  | true ↦ [] ∷ split_double s
  | false ↦ cons_first c (split_double (d ∷ s))
]

abbrev pub hex_digits : Text
hex_digits = codes "0123456789abcdef"

abbrev pub hex_digit : ℕ → Text
hex_digit n = elim (get_elem? hex_digits n) [ none ↦ [] | some c ↦ c ∷ [] ]

-- `n.toString(16).padStart(4, "0")`, of a number below 2 ^ 16.
unfoldable pub print_group : ℕ → Text
print_group n =
    hex_digit (n / 4096 % 16)
    ++ (hex_digit (n / 256 % 16) ++ (hex_digit (n / 16 % 16) ++ hex_digit (n % 16)))

-- A dotted tail as two groups; the text is `none` where it is refused.
unfoldable pub expand_tail : Text → Option Text
expand_tail value = elim (split_last b':' value) [
  | none ↦ some value
  | some (front, back) ↦
      if includes b'.' back
      then elim (read_octets (split b'.' back)) [
        | none ↦ none
        | some o ↦
            some (front ++ (print_group (o.a * 256 + o.b) ++ b':' ∷ print_group (o.c * 256 + o.d)))
      ]
      else some value
]

-- `Number.parseInt(c, 16)` of one hexadecimal digit.
unfoldable pub hex_value : ℕ → Option ℕ
hex_value c =
    if is_digit c
    then some (c - b'0')
    else if leb b'a' c && leb c b'f'
    then some (c - b'a' + 10)
    else if leb b'A' c && leb c b'F'
    then some (c - b'A' + 10)
    else none

unfoldable pub read_hex : ℕ → Text → Option ℕ
read_hex n [] = some n
read_hex n (c ∷ s) = elim (hex_value c) [ none ↦ none | some v ↦ read_hex (n * 16 + v) s ]

-- `/^[0-9a-fA-F]{1,4}$/` and `Number.parseInt(group, 16)`
unfoldable pub read_group : Text → Option ℕ
read_group s = if ltb 0 (length s) && leb (length s) 4 then read_hex 0 s else none

-- The loop of `parseGroups`.
unfoldable pub read_groups : List Text → Option (List ℕ)
read_groups [] = some []
read_groups (s ∷ parts) = do group ← read_group s; groups ← read_groups parts; some (group ∷ groups)

unfoldable pub parse_groups : Text → Option (List ℕ)
parse_groups [] = some []
parse_groups (c ∷ s) = read_groups (split b':' (c ∷ s))

-- The groups of the halves around `::`, or of the whole text.
unfoldable pub join_halves : List Text → Option (List ℕ)
join_halves (left ∷ []) = parse_groups left
join_halves (left ∷ right ∷ []) = do
  first ← parse_groups left
  last ← parse_groups right
  if leb (length first + length last) 8
      then some (first ++ (replicate (8 - length first - length last) 0 ++ last))
      else none
join_halves _ = none

unfoldable pub bytes_of_groups : List ℕ → Bytes
bytes_of_groups [] = []
bytes_of_groups (group ∷ groups) = (group / 256 % 256) ∷ (group % 256) ∷ bytes_of_groups groups

unfoldable pub ipv6_to_bytes : Text → Option Bytes
ipv6_to_bytes address = do
  value ← expand_tail (before b'%' address)
  groups ← join_halves (split_double value)
  if length groups == 8 then some (bytes_of_groups groups) else none
