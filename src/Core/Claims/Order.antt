-- ===== src/Core/Claims/Order.antt =====
-- validate-descriptor.ts: normalizeDescriptor, and the order of claims.
use credaryn.Base.{◌∙◌, sym, ap, arith, not, refl, false, true, ◌∷◌, [], ◌≡◌}
use credaryn.Core.Document.{DocumentDescriptor, ClaimValue, Claims}
use credaryn.Core.Claims.{assign_claims, insert_claim, sort_claims, normalize_descriptor, is_after}
use credaryn.Base.Text.{Text, list_eq}

-- The same entries in another order: two that change places have different keys.
pub data Reordered : Claims → Claims → Type 0 where
  kept : {claims : Claims} → Reordered claims claims
  under :
      {p : Text × ClaimValue} {claims others : Claims}
      → Reordered claims others
      → Reordered (p ∷ claims) (p ∷ others)
  exchanged :
      {p q : Text × ClaimValue} {claims : Claims}
      → list_eq p.0 q.0 ≡ false
      → Reordered (p ∷ q ∷ claims) (q ∷ p ∷ claims)
  chained : {a b c : Claims} → Reordered a b → Reordered b c → Reordered a c

-- Of two different keys, one comes after the other.
is_after-not_after : (s t : Text) → list_eq s t ≡ false → is_after t s ≡ not (is_after s t)
unfolding is_after list_eq
is_after-not_after [] [] h = cc
is_after-not_after [] (d ∷ t) h = refl
is_after-not_after (c ∷ s) [] h = refl
is_after-not_after (c ∷ s) (d ∷ t) h = ground (arith, is_after-not_after s t)

is_after_trans : (s t u : Text) → is_after s u ≡ true → is_after t u ≡ false → is_after s t ≡ true
unfolding is_after
is_after_trans [] t u h k = cc
is_after_trans (c ∷ s) [] u h k = refl
is_after_trans (c ∷ s) (d ∷ t) [] h k = cc
is_after_trans (c ∷ s) (d ∷ t) (e ∷ u) h k = ground (arith, is_after_trans s t u)

insert_claim_swap :
    (p q : Text × ClaimValue) (claims : Claims)
    → list_eq p.0 q.0 ≡ false
    → insert_claim p (insert_claim q claims) ≡ insert_claim q (insert_claim p claims)
unfolding insert_claim
insert_claim_swap p q [] h = ground (arith, is_after-not_after p.0 q.0 h)
insert_claim_swap p q (r ∷ claims) h = ground (
  arith,
  insert_claim_swap p q claims h,
  is_after-not_after p.0 q.0 h,
  is_after_trans p.0 q.0 r.0,
  is_after_trans q.0 p.0 r.0,
)

sort_claims-Reordered :
    {claims others : Claims} → Reordered claims others → sort_claims others ≡ sort_claims claims
unfolding sort_claims
sort_claims-Reordered kept = refl
sort_claims-Reordered (under {p} r) = ap (insert_claim p) (sort_claims-Reordered r)
sort_claims-Reordered (exchanged {p} {q} {claims} h) =
    sym (insert_claim_swap p q (sort_claims claims) h)
sort_claims-Reordered (chained r s) = sort_claims-Reordered s ∙ sort_claims-Reordered r

-- Two descriptors that differ in the order of their claims only, whose keys are different, are
-- normalized to the same descriptor.
pub normalize_descriptor-Reordered :
    (descriptor : DocumentDescriptor) (claims : Claims)
    → Reordered descriptor.claims claims
    → normalize_descriptor (record descriptor { claims = claims }) ≡ normalize_descriptor descriptor
unfolding normalize_descriptor
normalize_descriptor-Reordered descriptor claims r =
    ap (λ sorted. record descriptor { claims = assign_claims [] sorted }) (sort_claims-Reordered r)
