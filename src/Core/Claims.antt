-- ===== src/Core/Claims.antt =====
-- The order of claims: the sort of normalizeDescriptor (validate-descriptor.ts), and of
-- normalizeVerificationResult (packages/verifier/src/result-normalizer.ts), which is by the code units of
-- the keys in both.
pub mod Order
use credaryn.Base.{ltb, ◌==◌, true, false, if◌then◌else◌, Bool, ◌∷◌, []}
use credaryn.Base.Text.{Text}
use credaryn.Core.Document.{ClaimValue, Claims, DocumentDescriptor}
use credaryn.Core.Descriptor.{set_claim}

-- `left > right` on strings.
unfoldable pub is_after : Text → Text → Bool
is_after [] t = false
is_after (c ∷ s) [] = true
is_after (c ∷ s) (d ∷ t) = let rest = is_after s t in if c == d then rest else ltb d c

-- `sort` on the entries of the claims by their keys.
unfoldable pub insert_claim : Text × ClaimValue → Claims → Claims
insert_claim claim [] = claim ∷ []
insert_claim claim (other ∷ claims) =
    let rest = insert_claim claim claims in
    if is_after claim.0 other.0 then other ∷ rest else claim ∷ other ∷ claims

unfoldable pub sort_claims : Claims → Claims
sort_claims [] = []
sort_claims (claim ∷ claims) = insert_claim claim (sort_claims claims)

-- The loop over the sorted keys.
unfoldable pub assign_claims : Claims → Claims → Claims
assign_claims assigned [] = assigned
assign_claims assigned ((key, claim) ∷ claims) = assign_claims (set_claim key claim assigned) claims

unfoldable pub normalize_descriptor : DocumentDescriptor → DocumentDescriptor
normalize_descriptor descriptor = record descriptor {
  claims = assign_claims [] (sort_claims descriptor.claims);
}
