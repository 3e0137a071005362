-- ===== src/Verifier/Normalize.antt =====
-- packages/verifier/src/result-normalizer.ts.
use credaryn.Base.{none, some, Option}
use credaryn.Core.Document.{Claims, VerificationResult}
use credaryn.Core.Claims.{sort_claims}

abbrev pub sorted : Option Claims → Option Claims
sorted none = none
sorted (some claims) = some (sort_claims claims)

unfoldable pub normalize_verification_result : VerificationResult → VerificationResult
normalize_verification_result result = record result { signed_claims = sorted result.signed_claims }
