-- ===== src/Core/DidWeb/Embedded.antt =====
-- trust-policy.ts: isPrivateAddress on IPv4-mapped addresses.
use credaryn.Core.DidWeb.Ipv6.{print_group, bytes_of_groups, ipv6_to_bytes}
use credaryn.Core.DidWeb.Mapped.{
  dotted-is_plain, join_halves-mapped, expand_tail-dotted, plain-before,
}
use credaryn.Core.DidWeb.Groups.{print_group-IsGroup}
use credaryn.Core.DidWeb.Private.{is_private_ipv6, is_private_address, dotted}
use credaryn.Base.Split.{before}
use credaryn.Base.Text.{codes, Text}
use credaryn.Base.{
  ◌/◌, ◌%◌, ◌+◌, refl, [], arith, ◌∷◌, replicate, any, ◌++◌, ◌*◌, some, ◌<◌, ◌≡◌, ℕ,
}
use credaryn.Core.DidWeb.Blocks.{is_private_ipv4-blocks, special_blocks, address, is_in}

high : (a b : ℕ) → b < 256 → a < 256 → (a * 256 + b) / 256 % 256 ≡ a
high a b hb ha = omega arith

low : (a b : ℕ) → b < 256 → (a * 256 + b) % 256 ≡ b
low a b hb = omega arith

ipv6_to_bytes-mapped :
    (a b c d : ℕ)
    → a < 256
    → b < 256
    → c < 256
    → d < 256
    → ipv6_to_bytes (codes "::ffff:" ++ dotted a b c d)
      ≡ some (replicate 10 0 ++ 255 ∷ 255 ∷ a ∷ b ∷ c ∷ d ∷ [])
unfolding ipv6_to_bytes before bytes_of_groups
ipv6_to_bytes-mapped a b c d ha hb hc hd =
    let x = a * 256 + b in
    let y = c * 256 + d in
    rw
      (
        plain-before b'%' refl (dotted a b c d) (dotted-is_plain a b c d ha hb hc hd),
        expand_tail-dotted a b c d ha hb hc hd,
        join_halves-mapped x y (print_group x) (print_group y) (print_group-IsGroup x (omega arith))
            (print_group-IsGroup y (omega arith)),
      )
      (rw (high a b hb ha, low a b hb, high c d hd hc, low c d hd) refl)

-- If the platform takes the text for an IPv6 address, then an IPv4-mapped address in mixed
-- notation, which is `::ffff:` and an IPv4 address in dotted form, is private exactly when the
-- IPv4 address lies in one of the special purpose blocks.
pub is_private_address-mapped :
    (is_ip : Text → ℕ) (a b c d : ℕ)
    → a < 256
    → b < 256
    → c < 256
    → d < 256
    → is_ip (codes "::ffff:" ++ dotted a b c d) ≡ 6
    → is_private_address is_ip (codes "::ffff:" ++ dotted a b c d)
      ≡ any (is_in (address a b c d)) special_blocks
unfolding is_private_address is_private_ipv6
is_private_address-mapped is_ip a b c d ha hb hc hd six =
    rw (is_private_address, six, ipv6_to_bytes-mapped a b c d ha hb hc hd)
      (is_private_ipv4-blocks a b c d ha hb hc hd)
