-- ===== src/Verifier/RateLimit/Bounds.antt =====
-- rate-limit.ts: how many buckets there are.
use credaryn.Base.Maps.{lookup, put}
use native.Mathlib.Omega.{arith}
use credaryn.Verifier.RateLimit.{
  count_request, open_window, oldest_first, delete_keys, cap_buckets, check, check_all, is_expired,
  RateLimiterOptions, Bucket, prune_expired, delete_key, Buckets, insert_bucket,
}
use credaryn.Base.Text.{list_eq_refl, list_eq, Text}
use credaryn.Base.{
  ◌+◌, ◌-◌, Option-cases, ◌<◌, ◌∙◌, take, leb, List, ap, some, refl, inr, inl, ltb, Bool-cases,
  ◌||◌, ◌≤◌, suc, ◌⊎◌, ℕ, length, false, true, [], Bool, ◌≡◌, ◌∷◌,
}

length-prune :
    (options : RateLimiterOptions) (current : ℕ) (buckets : Buckets)
    → length (prune_expired options current buckets) ≤ length buckets
unfolding prune_expired
length-prune options current [] = omega arith
length-prune options current ((key, bucket) ∷ buckets) =
    let shorter = length-prune options current buckets in
    elim (Bool-cases (is_expired options current bucket)) [
      | inl e ↦ rw e (omega (arith, shorter))
      | inr e ↦ rw e (omega (arith, shorter))
    ]

length-put :
    (key : Text) (b : Bucket) (buckets : Buckets)
    → length (put key b buckets) ≤ suc (length buckets)
unfolding put
length-put key b [] = omega arith
length-put key b ((k, c) ∷ buckets) =
    let longer = length-put key b buckets in
    elim (Bool-cases (list_eq k key)) [
      | inl e ↦ rw e (omega arith)
      | inr e ↦ rw e (omega (arith, longer))
    ]

has_key : Text → Buckets → Bool
has_key key [] = false
has_key key ((k, b) ∷ buckets) = list_eq k key || has_key key buckets

length-delete_key :
    (key : Text) (buckets : Buckets)
    → has_key key buckets ≡ true
    → suc (length (delete_key key buckets)) ≡ length buckets
unfolding delete_key has_key
length-delete_key key [] h = absurd (ground arith)
length-delete_key key ((k, b) ∷ buckets) h = elim (Bool-cases (list_eq k key)) [
  | inl e ↦ rw e refl
  | inr e ↦ rw e (omega (arith, length-delete_key key buckets (rw e at h)))
]

-- The first bucket of the sorted ones is one of them.
abbrev HeadIn : Buckets → Buckets → Type 0
HeadIn [] buckets = ⊥
HeadIn ((k, b) ∷ sorted) buckets = has_key k buckets ≡ true

insert-HeadIn :
    (new : Text × Bucket) (sorted buckets : Buckets)
    → (sorted ≡ []) ⊎ HeadIn sorted buckets
    → HeadIn (insert_bucket new sorted) (new ∷ buckets)
unfolding insert_bucket has_key
insert-HeadIn new [] buckets h = rw (list_eq_refl new.0) refl
insert-HeadIn new (other ∷ sorted) buckets h =
    elim (Bool-cases (ltb other.1.started_at new.1.started_at)) [
      | inl e ↦ elim h [
        | inl n ↦ absurd (ground arith)
        | inr i ↦ elim (Bool-cases (list_eq new.0 other.0)) [
          | inl f ↦ rw (e, f) refl
          | inr f ↦ rw (e, f) i
        ]
      ]
      | inr e ↦ rw (e, list_eq_refl new.0) refl
    ]

oldest-HeadIn :
    (buckets : Buckets) → (oldest_first buckets ≡ []) ⊎ HeadIn (oldest_first buckets) buckets
unfolding oldest_first
oldest-HeadIn [] = inl refl
oldest-HeadIn (new ∷ buckets) =
    inr (insert-HeadIn new (oldest_first buckets) buckets (oldest-HeadIn buckets))

length-insert :
    (new : Text × Bucket) (buckets : Buckets)
    → length (insert_bucket new buckets) ≡ suc (length buckets)
unfolding insert_bucket
length-insert new [] = refl
length-insert new (other ∷ buckets) = elim (Bool-cases (ltb other.1.started_at new.1.started_at)) [
  | inl e ↦ rw e (ap suc (length-insert new buckets))
  | inr e ↦ rw e refl
]

length-oldest : (buckets : Buckets) → length (oldest_first buckets) ≡ length buckets
unfolding oldest_first
length-oldest [] = refl
length-oldest (new ∷ buckets) =
    length-insert new (oldest_first buckets) ∙ ap suc (length-oldest buckets)

-- One bucket is deleted, if there is one to delete.
length-delete_oldest :
    (sorted buckets : Buckets)
    → HeadIn sorted buckets
    → suc (length (delete_keys (take 1 sorted) buckets)) ≡ length buckets
unfolding delete_keys
length-delete_oldest [] buckets h = absurd h
length-delete_oldest ((k, b) ∷ sorted) buckets h = length-delete_key k buckets h

length-cap :
    (options : RateLimiterOptions) (buckets : Buckets)
    → length buckets ≤ suc options.max_buckets
    → length (cap_buckets options buckets) ≤ options.max_buckets
unfolding cap_buckets
length-cap options buckets h = elim (Bool-cases (leb (length buckets) options.max_buckets)) [
  | inl few ↦ rw few (ground arith)
  | inr many ↦
      let more : options.max_buckets < length buckets = ground arith in
      let one : length buckets - options.max_buckets ≡ 1 = omega arith in
      elim (oldest-HeadIn buckets) [
        | inl none_left ↦ absurd (omega (arith, length-oldest buckets, ap length none_left))
        | inr head ↦
            rw (many, one) (omega (arith, length-delete_oldest (oldest_first buckets) buckets head))
      ]
]

lookup-some-put :
    (key : Text) (b c : Bucket) (buckets : Buckets)
    → lookup key buckets ≡ some c
    → length (put key b buckets) ≡ length buckets
unfolding lookup put
lookup-some-put key b c [] h = absurd (ground arith)
lookup-some-put key b c ((k, d) ∷ buckets) h = elim (Bool-cases (list_eq k key)) [
  | inl e ↦ rw e refl
  | inr e ↦ rw e (ap suc (lookup-some-put key b c buckets (rw e at h)))
]

length-check :
    (options : RateLimiterOptions) (current : ℕ) (key : Text) (buckets : Buckets)
    → length buckets ≤ options.max_buckets
    → length (check options current key buckets).0 ≤ options.max_buckets
unfolding check open_window count_request
length-check options current key buckets h =
    let live = prune_expired options current buckets in
    let fewer = length-prune options current buckets in
    let opened =
      length-cap options (put key (record { started_at = current; count = 1 }) live)
        (omega (arith, length-put key (record { started_at = current; count = 1 }) live)) in
    elim (Option-cases (lookup key live)) [
      | inl n ↦ rw (check, n) opened
      | inr (existing, e) ↦ elim (Bool-cases (is_expired options current existing)) [
        | inl x ↦ rw (check, e, x) opened
        | inr x ↦
            rw (check, e, x)
              (omega (
                arith,
                lookup-some-put key
                    (record { started_at = existing.started_at; count = existing.count + 1 })
                    existing live e,
              ))
      ]
    ]

-- Whatever checks follow, there are never more buckets than the cap allows, if there were not at
-- the start.
pub length-check_all :
    (options : RateLimiterOptions) (calls : List (ℕ × Text)) (buckets : Buckets)
    → length buckets ≤ options.max_buckets
    → length (check_all options calls buckets) ≤ options.max_buckets
unfolding check_all
length-check_all options [] buckets h = h
length-check_all options ((current, key) ∷ calls) buckets h =
    length-check_all options calls (check options current key buckets).0
      (length-check options current key buckets h)
