-- ===== src/Core/DidWeb/Groups.antt =====
-- trust-policy.ts: the groups that ipv6ToBytes prints and reads back.
use credaryn.Core.DidWeb.Ipv6.{hex_digit, hex_value, read_hex, print_group, read_group}
use credaryn.Base.{
  ◌∙◌, ◌++◌, ◌+◌, ◌*◌, ==_iff, Option, true_and, passes_under_lem, none, ◌&&◌, ap, some, ◌==◌,
  false, arith, [], not, refl, ◌%◌, ◌∷◌, true, ◌/◌, ◌≡◌, Bool, ◌<◌, ℕ, passes_under,
}
use credaryn.Base.Text.{Text}

-- A hexadecimal digit is a character, with its value, that is no colon.
abbrev pub IsReadable : ℕ → Type 0
IsReadable n = (c : ℕ) × (hex_digit n ≡ c ∷ []) × (hex_value c ≡ some n) × (c == b':' ≡ false)

abbrev is_value : ℕ → Option ℕ → Bool
is_value n none = false
is_value n (some m) = m == n

abbrev reads_as : ℕ → Text → Bool
reads_as n (c ∷ []) = not (c == b':') && is_value n (hex_value c)
reads_as n _ = false

hex_reads : ℕ → Bool
hex_reads n = reads_as n (hex_digit n)

hex_table : passes_under hex_reads 16 ≡ true
unfolding passes_under hex_reads hex_value
hex_table = refl

is_value→eq : (n : ℕ) (o : Option ℕ) → is_value n o ≡ true → o ≡ some n
is_value→eq n none h = cc
is_value→eq n (some m) h = ap (λ k. some k) ((==_iff m n).0 h)

reads_as-IsReadable : (n : ℕ) (s : Text) → hex_digit n ≡ s → reads_as n s ≡ true → IsReadable n
reads_as-IsReadable n [] e h = cc
reads_as-IsReadable n (c ∷ d ∷ s) e h = cc
reads_as-IsReadable n (c ∷ []) e h =
    let (no_colon, value) = true_and (not (c == b':')) (is_value n (hex_value c)) h in
    (c, e, is_value→eq n (hex_value c) value, ground arith)

pub hex_digit-IsReadable : (n : ℕ) → n < 16 → IsReadable n
unfolding hex_reads
hex_digit-IsReadable n h =
    reads_as-IsReadable n (hex_digit n) refl (passes_under_lem hex_reads 16 n h hex_table)

-- The four digits of a group, none of them a colon.
abbrev pub IsGroup : ℕ → Text → Type 0
IsGroup n s =
    (a : ℕ) × (b : ℕ) × (c : ℕ) × (d : ℕ) × (s ≡ a ∷ b ∷ c ∷ d ∷ [])
    × (a == b':' ≡ false)
    × (b == b':' ≡ false)
    × (c == b':' ≡ false)
    × (d == b':' ≡ false)
    × (read_group s ≡ some n)

read_hex-step :
    (n c v : ℕ) (s : Text) → hex_value c ≡ some v → read_hex n (c ∷ s) ≡ read_hex (n * 16 + v) s
unfolding read_hex
read_hex-step n c v s h = rw (read_hex, h) refl

digits-IsGroup :
    (p q r s n : ℕ)
    → IsReadable p
    → IsReadable q
    → IsReadable r
    → IsReadable s
    → ((p * 16 + q) * 16 + r) * 16 + s ≡ n
    → IsGroup n (hex_digit p ++ (hex_digit q ++ (hex_digit r ++ hex_digit s)))
unfolding read_group read_hex
digits-IsGroup p q r s n (a, pa, va, na) (b, qb, vb, nb) (c, rc, vc, nc) (d, sd, vd, nd) total = (
  a,
  b,
  c,
  d,
  rw (pa, qb, rc, sd) refl,
  na,
  nb,
  nc,
  nd,
  rw (pa, qb, rc, sd)
      (read_hex-step 0 a p (b ∷ c ∷ d ∷ []) va
        ∙ read_hex-step (0 * 16 + p) b q (c ∷ d ∷ []) vb
        ∙ read_hex-step ((0 * 16 + p) * 16 + q) c r (d ∷ []) vc
        ∙ read_hex-step (((0 * 16 + p) * 16 + q) * 16 + r) d s [] vd
        ∙ ap (λ m. some m) (omega arith)),
)

pub print_group-IsGroup : (n : ℕ) → n < 65536 → IsGroup n (print_group n)
unfolding print_group
print_group-IsGroup n h =
    digits-IsGroup (n / 4096 % 16) (n / 256 % 16) (n / 16 % 16) (n % 16) n
      (hex_digit-IsReadable (n / 4096 % 16) (omega arith))
      (hex_digit-IsReadable (n / 256 % 16) (omega arith))
      (hex_digit-IsReadable (n / 16 % 16) (omega arith))
      (hex_digit-IsReadable (n % 16) (omega arith)) (omega arith)
