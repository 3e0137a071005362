-- ===== src/Base/Options.antt =====
-- `do` blocks in which a missing value ends the block.
use mathlib.Core.Path.{◌≡◌, refl}
use mathlib.Core.Bool.{Bool, true, false}
use credaryn.Base.Tests.{if◌then◌else◌}
use mathlib.Core.Option.{Option, none, some}

module _ {ℓ κ} {A : Type ℓ} {B : Type κ} where
  infixl 5 ◌>>=◌
  abbrev pub ◌>>=◌ : Option A → (A → Option B) → Option B
  none >>= next = none
  some value >>= next = next value

  pub >>=-eq-some :
      (first : Option A) (next : A → Option B) {out : B}
      → (first >>= next) ≡ some out
      → (value : A) × (first ≡ some value) × (next value ≡ some out)
  >>=-eq-some none next eq = cc
  >>=-eq-some (some value) next eq = (value, refl, eq)

-- A test that lets a value pass holds.
pub if-eq-some {ℓ} :
    {A : Type ℓ} (b : Bool) (o : Option A) {out : A}
    → (if b then o else none) ≡ some out
    → (b ≡ true) × (o ≡ some out)
if-eq-some true o h = (refl, h)
if-eq-some false o h = cc

-- A test that refuses a value does not hold.
pub if-refused {ℓ} :
    {A : Type ℓ} (b : Bool) (o : Option A) {out : A}
    → (if b then none else o) ≡ some out
    → (b ≡ false) × (o ≡ some out)
if-refused true o h = cc
if-refused false o h = (refl, h)
