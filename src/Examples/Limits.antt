-- ===== src/Examples/Limits.antt =====
-- apps/verifier-web/src/rate-limit.ts: three clients and two buckets.
use credaryn.Base.Maps.{lookup, put}
use native.Mathlib.Omega.{arith}
use credaryn.Verifier.RateLimit.{
  delete_key, delete_keys, insert_bucket, oldest_first, cap_buckets, open_window, count_request,
  prune_expired, RateLimiterOptions, check_all, check,
}
use credaryn.Base.{refl, false, ◌≡◌, ◌∷◌, ◌≤◌, ℕ, [], List, length}
use credaryn.Base.Text.{codes, list_eq, Text}
use credaryn.Verifier.RateLimit.Bounds.{length-check_all}

abbrev options : RateLimiterOptions
options = record { limit = 1; window_ms = 1000; max_buckets = 2 }

abbrev calls : List (ℕ × Text)
calls = (0, codes "a") ∷ (1, codes "b") ∷ (2, codes "b") ∷ (3, codes "c") ∷ []

left_lem :
    check_all options calls []
    ≡ (codes "b", record { started_at = 1; count = 2 })
      ∷ (codes "c", record { started_at = 3; count = 1 })
      ∷ []
unfolding check_all check prune_expired open_window count_request cap_buckets oldest_first
    insert_bucket delete_keys delete_key lookup put list_eq
left_lem = refl

refused_lem :
    (check options 2 (codes "b") ((codes "b", record { started_at = 1; count = 1 }) ∷ [])).1
    ≡ record { allowed = false; retry_after_ms = 999 }
unfolding check prune_expired count_request lookup put list_eq
refused_lem = refl

length-check_all_example : length (check_all options calls []) ≤ 2
length-check_all_example = length-check_all options calls [] (omega arith)
