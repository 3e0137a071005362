-- ===== src/Base/Search.antt =====
-- JavaScript's `find` and `some` on arrays, and what they find.
use credaryn.Base.Tests.{if◌then◌else◌, Bool-cases, some_injective}
use mathlib.Core.Path.{◌≡◌, subst}
use mathlib.Core.Bool.{Bool, true, false, ◌||◌}
use mathlib.Core.Logic.{inl, inr}
use credaryn.Base.Lists.{All, All-weaken}
use mathlib.Core.Option.{Option, none, some}
use mathlib.Core.List.{List, [], ◌∷◌, Mem, mem-cons_self, mem-cons_of_mem}

module _ {ℓ} {A : Type ℓ} (test : A → Bool) where
  abbrev pub find : List A → Option A
  find [] = none
  find (x ∷ xs) = if test x then some x else find xs

  abbrev pub any : List A → Bool
  any [] = false
  any (x ∷ xs) = test x || any xs

  -- The first element that passes is an element, and passes.
  pub find-Mem : (xs : List A) (a : A) → find xs ≡ some a → Mem a xs × (test a ≡ true)
  find-Mem [] a h = cc
  find-Mem (x ∷ xs) a h = elim (Bool-cases (test x)) [
    | inl passed ↦
        subst (λ b. Mem b (x ∷ xs) × (test b ≡ true)) (some_injective (rw passed at h))
          (mem-cons_self, passed)
    | inr failed ↦
        let (member, passes) = find-Mem xs a (rw failed at h) in (mem-cons_of_mem x member, passes)
  ]

  pub any-Mem : (xs : List A) → any xs ≡ true → (a : A) × Mem a xs × (test a ≡ true)
  any-Mem [] h = cc
  any-Mem (x ∷ xs) h = elim (Bool-cases (test x)) [
    | inl passed ↦ (x, mem-cons_self, passed)
    | inr failed ↦
        let (a, member, passes) = any-Mem xs (rw failed at h) in
        (a, mem-cons_of_mem x member, passes)
  ]

-- What holds of all elements, holds of them as elements.
pub All-with_Mem {ℓ κ} :
    {A : Type ℓ} (P : A → Type κ) (xs : List A) → All P xs → All (λ x. Mem x xs × P x) xs
All-with_Mem P [] h = tt
All-with_Mem P (x ∷ xs) (p, h) = (
  (mem-cons_self, p),
  All-weaken (λ y. Mem y xs × P y) (λ y. Mem y (x ∷ xs) × P y)
      (λ y (m, q). (mem-cons_of_mem x m, q)) xs (All-with_Mem P xs h),
)
