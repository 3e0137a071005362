-- ===== src/Core/DidWeb/Blocks.antt =====
-- trust-policy.ts: the addresses that isPrivateIpv4 refuses, as blocks of consecutive addresses.
use credaryn.Core.DidWeb.Address.{
  is_octet_text, read_octet, is_private_octets, read_octets, is_private_ipv4,
}
use credaryn.Core.DidWeb.Private.{dotted, print_octet}
use credaryn.Base.Split.{split, read_digits, split-append, split-single, includes}
use credaryn.Base.{
  ap, ◌∙◌, ◌++◌, ==_iff, inr, inl, passes_under, Option-cases, Bool-cases, refl, sym, true,
  if◌then◌else◌, arith, ◌||◌, ◌==◌, false, passes_under_lem, ltb, none, some, ◌&&◌, any, ◌≡◌, not,
  ◌+◌, ◌-◌, [], leb, ◌<◌, Bool, ◌*◌, ◌^◌, ◌∷◌, ℕ, List,
}

print_octet_reads : ℕ → Bool
unfolding read_octet is_octet_text read_digits print_octet
print_octet_reads n = elim (read_octet (print_octet n)) [ none ↦ false | some m ↦ m == n ]

table : passes_under print_octet_reads 256 ≡ true
unfolding passes_under print_octet_reads read_octet is_octet_text read_digits print_octet
table = refl

pub read_octet-print_octet : (n : ℕ) → n < 256 → read_octet (print_octet n) ≡ some n
unfolding print_octet_reads
read_octet-print_octet n h =
    let checked = passes_under_lem print_octet_reads 256 n h table in
    elim (Option-cases (read_octet (print_octet n))) [
      | inl missing ↦ let bad : false ≡ true = rw (print_octet_reads, missing) at checked in cc
      | inr (m, read) ↦
          let same = (==_iff m n).0 (rw (print_octet_reads, read) at checked) in
          rw (read, same) refl
    ]

-- The text of an octet has neither a dot, a colon nor a percent sign.
print_octet_has_no_dot : ℕ → Bool
unfolding includes print_octet
print_octet_has_no_dot n = not (includes b'.' (print_octet n))

dot_table : passes_under print_octet_has_no_dot 256 ≡ true
unfolding passes_under print_octet_has_no_dot includes print_octet
dot_table = refl

no_dot : (n : ℕ) → n < 256 → includes b'.' (print_octet n) ≡ false
unfolding print_octet_has_no_dot
no_dot n h =
    let checked = passes_under_lem print_octet_has_no_dot 256 n h dot_table in
    elim (Bool-cases (includes b'.' (print_octet n))) [
      | inl dot ↦ let bad : false ≡ true = rw (print_octet_has_no_dot, dot) at checked in cc
      | inr none' ↦ none'
    ]

-- A block of consecutive addresses: its first address and the number of its addresses.
abbrev Block : Type 0
Block = ℕ × ℕ

abbrev pub address : ℕ → ℕ → ℕ → ℕ → ℕ
address a b c d = ((a * 256 + b) * 256 + c) * 256 + d

-- The block of the addresses that share their first bits with one, as in `a.b.c.d/bits`.
abbrev pub block : ℕ → ℕ → ℕ → ℕ → ℕ → Block
block a b c d bits = (address a b c d, 2 ^ (32 - bits))

-- Special purpose blocks: this network, private use, loopback, link-local, shared, protocol
-- assignments, documentation, benchmarking, multicast and reserved.
abbrev pub special_blocks : List Block
special_blocks =
    block 0 0 0 0 8
    ∷ block 10 0 0 0 8
    ∷ block 127 0 0 0 8
    ∷ block 169 254 0 0 16
    ∷ block 172 16 0 0 12
    ∷ block 192 168 0 0 16
    ∷ block 100 64 0 0 10
    ∷ block 192 0 0 0 24
    ∷ block 192 0 2 0 24
    ∷ block 198 18 0 0 15
    ∷ block 198 51 100 0 24
    ∷ block 203 0 113 0 24
    ∷ block 224 0 0 0 3
    ∷ []

abbrev pub is_in : ℕ → Block → Bool
is_in n (first, size) = leb first n && ltb n (first + size)

or_step : (x x' : Bool) {y y' : Bool} → x ≡ x' → y ≡ y' → (if x then true else y) ≡ (x' || y')
or_step true x' e f = rw (sym e) refl
or_step false x' e f = rw (sym e) f

-- The tests of the octets, one by one, are those of the blocks.
pub is_private_octets-blocks :
    (a b c d : ℕ)
    → a < 256
    → b < 256
    → c < 256
    → d < 256
    → is_private_octets (record { a = a; b = b; c = c; d = d })
      ≡ any (is_in (address a b c d)) special_blocks
unfolding is_private_octets
is_private_octets-blocks a b c d ha hb hc hd =
    let n = address a b c d in
    or_step (a == 0) (is_in n (block 0 0 0 0 8)) (ground arith) (
      or_step (a == 10) (is_in n (block 10 0 0 0 8)) (ground arith) (
        or_step (a == 127) (is_in n (block 127 0 0 0 8)) (ground arith) (
          or_step (a == 169 && b == 254) (is_in n (block 169 254 0 0 16)) (ground arith) (
            or_step (a == 172 && leb 16 b && leb b 31) (is_in n (block 172 16 0 0 12))
              (ground arith)
              (or_step (a == 192 && b == 168) (is_in n (block 192 168 0 0 16)) (ground arith) (
                or_step (a == 100 && leb 64 b && leb b 127) (is_in n (block 100 64 0 0 10))
                  (ground arith)
                  (or_step (a == 192 && b == 0 && c == 0) (is_in n (block 192 0 0 0 24))
                    (ground arith)
                    (or_step (a == 192 && b == 0 && c == 2) (is_in n (block 192 0 2 0 24))
                      (ground arith)
                      (or_step (a == 198 && (b == 18 || b == 19)) (is_in n (block 198 18 0 0 15))
                        (ground arith)
                        (or_step (a == 198 && b == 51 && c == 100) (is_in n (block 198 51 100 0 24))
                          (ground arith)
                          (or_step (a == 203 && b == 0 && c == 113) (is_in n (block 203 0 113 0 24))
                            (ground arith)
                            (or_step (leb 224 a) (is_in n (block 224 0 0 0 3)) (ground arith)
                              (refl)))))))))))))

pub split-dotted :
    (a b c d : ℕ)
    → a < 256
    → b < 256
    → c < 256
    → d < 256
    → split b'.' (dotted a b c d)
      ≡ print_octet a ∷ print_octet b ∷ print_octet c ∷ print_octet d ∷ []
unfolding dotted
split-dotted a b c d ha hb hc hd =
    let cd = print_octet c ++ b'.' ∷ print_octet d in
    let bcd = print_octet b ++ b'.' ∷ cd in
    split-append b'.' (print_octet a) bcd (no_dot a ha)
    ∙ ap (λ parts. print_octet a ∷ parts)
        (split-append b'.' (print_octet b) cd (no_dot b hb)
          ∙ ap (λ parts. print_octet b ∷ parts)
              (split-append b'.' (print_octet c) (print_octet d) (no_dot c hc)
                ∙ ap (λ parts. print_octet c ∷ parts)
                    (split-single b'.' (print_octet d) (no_dot d hd))))

pub read_octets-dotted :
    (a b c d : ℕ)
    → a < 256
    → b < 256
    → c < 256
    → d < 256
    → read_octets (split b'.' (dotted a b c d)) ≡ some (record { a = a; b = b; c = c; d = d })
unfolding read_octets
read_octets-dotted a b c d ha hb hc hd =
    rw
      (
        split-dotted a b c d ha hb hc hd,
        read_octet-print_octet a ha,
        read_octet-print_octet b hb,
        read_octet-print_octet c hc,
        read_octet-print_octet d hd,
      )
      refl

-- An IPv4 address in dotted form is private exactly when it lies in one of 13 blocks of special
-- purpose addresses, given by their first address and their prefix length.
pub is_private_ipv4-blocks :
    (a b c d : ℕ)
    → a < 256
    → b < 256
    → c < 256
    → d < 256
    → is_private_ipv4 (dotted a b c d) ≡ any (is_in (address a b c d)) special_blocks
unfolding is_private_ipv4
is_private_ipv4-blocks a b c d ha hb hc hd =
    rw (is_private_ipv4, read_octets-dotted a b c d ha hb hc hd)
      (is_private_octets-blocks a b c d ha hb hc hd)
