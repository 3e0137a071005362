-- ===== src/Base/Maps.antt =====
-- `Map` with string keys, as its entries in insertion order.
use credaryn.Base.Text.{list_eq→eq, list_eq_refl, list_eq, Text}
use credaryn.Base.{
  refl, inr, inl, [], Bool-cases, none, if◌then◌else◌, some, false, Option, ◌∷◌, ◌≡◌, List,
}

module _ {ℓ} {V : Type ℓ} where
  unfoldable pub lookup : Text → List (Text × V) → Option V
  lookup key [] = none
  lookup key ((k, v) ∷ entries) = if list_eq k key then some v else lookup key entries

  unfoldable pub put : Text → V → List (Text × V) → List (Text × V)
  put key v [] = (key, v) ∷ []
  put key v ((k, w) ∷ entries) =
      let rest = put key v entries in if list_eq k key then (k, v) ∷ entries else (k, w) ∷ rest

  -- `delete`.
  unfoldable pub remove : Text → List (Text × V) → List (Text × V)
  remove key [] = []
  remove key ((k, w) ∷ entries) =
      let rest = remove key entries in if list_eq k key then rest else (k, w) ∷ rest

  pub lookup-remove :
      (key : Text) (entries : List (Text × V)) → lookup key (remove key entries) ≡ none
  unfolding lookup remove
  lookup-remove key [] = refl
  lookup-remove key ((k, w) ∷ entries) = elim (Bool-cases (list_eq k key)) [
    | inl same ↦ rw same (lookup-remove key entries)
    | inr other ↦ rw (other, other) (lookup-remove key entries)
  ]

  pub lookup-remove-other :
      (key k : Text) (entries : List (Text × V))
      → list_eq key k ≡ false
      → lookup k (remove key entries) ≡ lookup k entries
  unfolding lookup remove
  lookup-remove-other key k [] h = refl
  lookup-remove-other key k ((l, w) ∷ entries) h = elim (Bool-cases (list_eq l key)) [
    | inl same ↦ rw (same, list_eq→eq l key same, h) (lookup-remove-other key k entries h)
    | inr other ↦ elim (Bool-cases (list_eq l k)) [
      | inl here ↦ rw (other, here) refl
      | inr there ↦ rw (other, there) (lookup-remove-other key k entries h)
    ]
  ]

  pub lookup-put :
      (key : Text) (v : V) (entries : List (Text × V)) → lookup key (put key v entries) ≡ some v
  unfolding lookup put
  lookup-put key v [] = rw (list_eq_refl key) refl
  lookup-put key v ((k, w) ∷ entries) = elim (Bool-cases (list_eq k key)) [
    | inl same ↦ rw (same, same) refl
    | inr other ↦ rw (other, other) (lookup-put key v entries)
  ]

  pub lookup-put-other :
      (key k : Text) (v : V) (entries : List (Text × V))
      → list_eq key k ≡ false
      → lookup k (put key v entries) ≡ lookup k entries
  unfolding lookup put
  lookup-put-other key k v [] h = rw h refl
  lookup-put-other key k v ((l, w) ∷ entries) h = elim (Bool-cases (list_eq l key)) [
    | inl same ↦ rw (same, list_eq→eq l key same, h) refl
    | inr other ↦ elim (Bool-cases (list_eq l k)) [
      | inl here ↦ rw (other, here) refl
      | inr there ↦ rw (other, there) (lookup-put-other key k v entries h)
    ]
  ]
