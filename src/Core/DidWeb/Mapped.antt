-- ===== src/Core/DidWeb/Mapped.antt =====
-- trust-policy.ts: IPv4 addresses inside IPv6 ones, `::ffff:a.b.c.d`, and what ipv6ToBytes gives.
use credaryn.Base.Split.{split-single, split-append, split, is_digit, includes, before, split_last}
use credaryn.Base.{
  ap, ◌&&◌, ◌∙◌, not, ◌+◌, inr, ◌*◌, inl, Bool-cases, ==_iff, arith, some, [], true_and, ◌==◌, ◌∷◌,
  none, ◌||◌, refl, ◌++◌, passes_under_lem, all, true, List, false, Bool, ◌<◌, ◌≡◌, ℕ, passes_under,
}
use credaryn.Core.DidWeb.Private.{print_octet, dotted}
use credaryn.Base.Text.{codes, Text}
use credaryn.Core.DidWeb.Ipv6.{
  hex_value, read_hex, read_group, read_groups, parse_groups, split_double, join_halves,
  print_group, expand_tail,
}
use credaryn.Core.DidWeb.Blocks.{read_octets-dotted}
use credaryn.Core.DidWeb.Groups.{IsGroup}

-- A text of digits and dots.
abbrev pub is_plain : ℕ → Bool
is_plain c = is_digit c || c == b'.'

octet_is_plain : ℕ → Bool
octet_is_plain n = all is_plain (print_octet n)

plain_table : passes_under octet_is_plain 256 ≡ true
unfolding passes_under octet_is_plain print_octet
plain_table = refl

all-append :
    (test : ℕ → Bool) (s t : List ℕ)
    → all test s ≡ true
    → all test t ≡ true
    → all test (s ++ t) ≡ true
all-append test [] t h k = k
all-append test (c ∷ s) t h k =
    let (first, rest) = true_and (test c) (all test s) h in rw first (all-append test s t rest k)

pub dotted-is_plain :
    (a b c d : ℕ) → a < 256 → b < 256 → c < 256 → d < 256 → all is_plain (dotted a b c d) ≡ true
unfolding dotted octet_is_plain
dotted-is_plain a b c d ha hb hc hd =
    let plain : (n : ℕ) → n < 256 → all is_plain (print_octet n) ≡ true =
      λ n h. passes_under_lem octet_is_plain 256 n h plain_table in
    all-append is_plain (print_octet a) _ (plain a ha) (
      all-append is_plain (print_octet b) _ (plain b hb)
        (all-append is_plain (print_octet c) (b'.' ∷ print_octet d) (plain c hc) (plain d hd)))

module _ (separator : ℕ) (other : is_plain separator ≡ false) where
  pub plain-before : (s : Text) → all is_plain s ≡ true → before separator s ≡ s
  unfolding before
  plain-before [] h = refl
  plain-before (c ∷ s) h =
      let (first, rest) = true_and (is_plain c) (all is_plain s) h in
      let differ : c == separator ≡ false = ground arith in rw (differ, plain-before s rest) refl

  plain-split_last : (s : Text) → all is_plain s ≡ true → split_last separator s ≡ none
  unfolding split_last
  plain-split_last [] h = refl
  plain-split_last (c ∷ s) h =
      let (first, rest) = true_and (is_plain c) (all is_plain s) h in
      let differ : c == separator ≡ false = ground arith in
      rw (plain-split_last s rest, differ) refl

includes-append : (c : ℕ) (s t : Text) → includes c (s ++ c ∷ t) ≡ true
unfolding includes
includes-append c [] t = ground arith
includes-append c (d ∷ s) t = elim (Bool-cases (d == c)) [
  | inl same ↦ rw same refl
  | inr other ↦ rw other (includes-append c s t)
]

split_last-found :
    (c : ℕ) (s t : Text) → split_last c t ≡ none → split_last c (s ++ c ∷ t) ≡ some (s ++ c ∷ [], t)
unfolding split_last
split_last-found c [] t h = rw (h, (==_iff c c).1 refl) refl
split_last-found c (d ∷ s) t h = rw (split_last-found c s t h) refl

dotted_has_dot : (a b c d : ℕ) → includes b'.' (dotted a b c d) ≡ true
unfolding dotted
dotted_has_dot a b c d = includes-append b'.' (print_octet a) _

-- The tail of an address behind `::ffff:` is replaced by two groups.
pub expand_tail-dotted :
    (a b c d : ℕ)
    → a < 256
    → b < 256
    → c < 256
    → d < 256
    → expand_tail (codes "::ffff:" ++ dotted a b c d)
      ≡ some (codes "::ffff:" ++ (print_group (a * 256 + b) ++ b':' ∷ print_group (c * 256 + d)))
unfolding expand_tail
expand_tail-dotted a b c d ha hb hc hd =
    let tail = dotted a b c d in
    let found =
      split_last-found b':' (codes "::ffff") tail
        (plain-split_last b':' refl tail (dotted-is_plain a b c d ha hb hc hd)) in
    rw (expand_tail, found, dotted_has_dot a b c d, read_octets-dotted a b c d ha hb hc hd) refl

-- No two colons in a row.
abbrev no_double : Text → Bool
no_double [] = true
no_double (c ∷ []) = true
no_double (c ∷ d ∷ s) = not (c == b':' && d == b':') && no_double (d ∷ s)

split_double-single : (s : Text) → no_double s ≡ true → split_double s ≡ s ∷ []
unfolding split_double
split_double-single [] h = refl
split_double-single (c ∷ []) h = refl
split_double-single (c ∷ d ∷ s) h =
    let (apart, rest) = true_and (not (c == b':' && d == b':')) (no_double (d ∷ s)) h in
    elim (Bool-cases (c == b':' && d == b':')) [
      | inl both ↦ let bad : false ≡ true = rw both at apart in cc
      | inr not_both ↦ rw (split_double, not_both, split_double-single (d ∷ s) rest) refl
    ]

module _ (x y : ℕ) (s t : Text) (first : IsGroup x s) (second : IsGroup y t) where
  mapped_is_single : no_double (codes "ffff:" ++ (s ++ b':' ∷ t)) ≡ true
  mapped_is_single =
      let (a, b, c, d, s_is, na, nb, nc, nd, _) = first in
      let (e, f, g, h, t_is, ne, nf, ng, nh, _) = second in
      rw (s_is, t_is, na, nb, nc, nd, ne, nf, ng) refl

  no_colon_left : includes b':' s ≡ false
  unfolding includes
  no_colon_left =
      let (a, b, c, d, s_is, na, nb, nc, nd, _) = first in rw (s_is, na, nb, nc, nd) refl

  no_colon_right : includes b':' t ≡ false
  unfolding includes
  no_colon_right =
      let (e, f, g, h, t_is, ne, nf, ng, nh, _) = second in rw (t_is, ne, nf, ng, nh) refl

  split-mapped : split b':' (codes "ffff:" ++ (s ++ b':' ∷ t)) ≡ codes "ffff" ∷ s ∷ t ∷ []
  unfolding includes
  split-mapped =
      split-append b':' (codes "ffff") (s ++ b':' ∷ t) refl
      ∙ ap (λ parts. codes "ffff" ∷ parts)
          (split-append b':' s t no_colon_left
            ∙ ap (λ parts. s ∷ parts) (split-single b':' t no_colon_right))

  parse_groups-mapped : parse_groups (codes "ffff:" ++ (s ++ b':' ∷ t)) ≡ some (65535 ∷ x ∷ y ∷ [])
  unfolding parse_groups read_groups read_group read_hex hex_value
  parse_groups-mapped =
      let (a, b, c, d, _, _, _, _, _, s_reads) = first in
      let (e, f, g, h, _, _, _, _, _, t_reads) = second in
      rw (split-mapped, read_groups, s_reads, t_reads) refl

  pub join_halves-mapped :
      join_halves (split_double (codes "::ffff:" ++ (s ++ b':' ∷ t)))
      ≡ some (0 ∷ 0 ∷ 0 ∷ 0 ∷ 0 ∷ 65535 ∷ x ∷ y ∷ [])
  unfolding join_halves split_double parse_groups
  join_halves-mapped =
      let text = codes "ffff:" ++ (s ++ b':' ∷ t) in
      rw (split_double-single text mapped_is_single, parse_groups-mapped) refl
