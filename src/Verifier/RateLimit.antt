-- ===== src/Verifier/RateLimit.antt =====
-- apps/verifier-web/src/rate-limit.ts: createRateLimiter. The buckets are the entries of the `Map`
-- in insertion order. Times are milliseconds since the epoch, and the options are in the range
-- that `Math.max(1, …)` leaves them in.
pub mod Bounds
use credaryn.Base.Maps.{lookup, put}
use credaryn.Base.{
  take, ◌-◌, length, false, some, leb, [], ltb, true, ◌+◌, none, ℕ, Bool, List, ◌∷◌, if◌then◌else◌,
}
use credaryn.Base.Text.{list_eq, Text}

pub record RateLimiterOptions : Type 0 where
  pub limit : ℕ
  pub window_ms : ℕ
  pub max_buckets : ℕ

pub record Bucket : Type 0 where
  pub started_at : ℕ
  pub count : ℕ

pub record RateLimitDecision : Type 0 where
  pub allowed : Bool
  pub retry_after_ms : ℕ

abbrev pub Buckets : Type 0
Buckets = List (Text × Bucket)

-- `current - startedAt >= windowMs`; the difference of a clock that went back is negative, and the
-- window is at least 1.
abbrev pub is_expired : RateLimiterOptions → ℕ → Bucket → Bool
is_expired options current bucket = leb (bucket.started_at + options.window_ms) current

unfoldable pub prune_expired : RateLimiterOptions → ℕ → Buckets → Buckets
prune_expired options current [] = []
prune_expired options current ((key, bucket) ∷ buckets) =
    let rest = prune_expired options current buckets in
    if is_expired options current bucket then rest else (key, bucket) ∷ rest

-- The stable sort by the start of the window.
unfoldable pub insert_bucket : Text × Bucket → Buckets → Buckets
insert_bucket new [] = new ∷ []
insert_bucket new (other ∷ buckets) =
    let rest = insert_bucket new buckets in
    if ltb other.1.started_at new.1.started_at then other ∷ rest else new ∷ other ∷ buckets

unfoldable pub oldest_first : Buckets → Buckets
oldest_first [] = []
oldest_first (new ∷ buckets) = insert_bucket new (oldest_first buckets)

-- `buckets.delete(key)`
unfoldable pub delete_key : Text → Buckets → Buckets
delete_key key [] = []
delete_key key ((k, bucket) ∷ buckets) =
    let rest = delete_key key buckets in if list_eq k key then buckets else (k, bucket) ∷ rest

-- The loop over the oldest entries.
unfoldable pub delete_keys : Buckets → Buckets → Buckets
delete_keys [] buckets = buckets
delete_keys ((key, bucket) ∷ others) buckets = delete_keys others (delete_key key buckets)

unfoldable pub cap_buckets : RateLimiterOptions → Buckets → Buckets
cap_buckets options buckets =
    if leb (length buckets) options.max_buckets
    then buckets
    else delete_keys (take (length buckets - options.max_buckets) (oldest_first buckets)) buckets

unfoldable pub open_window : RateLimiterOptions → ℕ → Text → Buckets → Buckets × RateLimitDecision
open_window options current key buckets = (
  cap_buckets options (put key (record { started_at = current; count = 1 }) buckets),
  record { allowed = true; retry_after_ms = 0 },
)

unfoldable pub count_request :
    RateLimiterOptions → ℕ → Text → Bucket → Buckets → Buckets × RateLimitDecision
count_request options current key existing buckets = (
  put key (record { started_at = existing.started_at; count = existing.count + 1 }) buckets,
  if ltb options.limit (existing.count + 1)
      then record {
        allowed = false;
        retry_after_ms = existing.started_at + options.window_ms - current;
      }
      else record { allowed = true; retry_after_ms = 0 },
)

unfoldable pub check : RateLimiterOptions → ℕ → Text → Buckets → Buckets × RateLimitDecision
check options current key buckets =
    let live = prune_expired options current buckets in
    elim (lookup key live) [
      | none ↦ open_window options current key live
      | some existing ↦
          if is_expired options current existing
          then open_window options current key live
          else count_request options current key existing live
    ]

-- A run of checks, each at its time.
unfoldable pub check_all : RateLimiterOptions → List (ℕ × Text) → Buckets → Buckets
check_all options [] buckets = buckets
check_all options ((current, key) ∷ calls) buckets =
    check_all options calls (check options current key buckets).0
