-- ===== src/Core/KeyLifecycle/Lookup.antt =====
-- key-lifecycle.ts: what a lookup finds after each change to the registry.
use mathlib.Core.Option
use credaryn.Core.KeyLifecycle.{
  is_authorized, record_reference, retire_active, Registry, KeyVersionRecord, replace_record,
  retire_all, KeyVersionIdentity, find_record, require_record,
}
use credaryn.Base.Text.{list_eq→eq, list_eq_iff, list_eq, Text}
use credaryn.Base.{
  true, inr, inl, Bool-cases, Option-cases, ◌⊎◌, refl, [], ◌∷◌, arith, ◌++◌, if◌then◌else◌, some,
  ok, ◌≡◌,
}

pub find_record-append :
    (reference : Text) (records more : Registry) (r : KeyVersionRecord)
    → find_record reference records ≡ some r
    → find_record reference (records ++ more) ≡ some r
unfolding find_record
find_record-append reference [] more r h = cc
find_record-append reference ((k, s) ∷ records) more r h =
    ground (arith, find_record-append reference records more r)

pub find_record-replace_record :
    (reference changed : Text) (r' : KeyVersionRecord) (records : Registry) (r : KeyVersionRecord)
    → find_record changed records ≡ some r
    → find_record reference (replace_record changed r' records)
      ≡ (if list_eq changed reference then some r' else find_record reference records)
unfolding find_record replace_record
find_record-replace_record reference changed r' [] r h = cc
find_record-replace_record reference changed r' ((k, s) ∷ records) r h = ground (
  arith,
  list_eq_iff k changed,
  list_eq_iff k reference,
  list_eq_iff changed reference,
  find_record-replace_record reference changed r' records r,
)

pub find_record-retire_all :
    (reference issuer at : Text) (records : Registry)
    → find_record reference (retire_all issuer at records)
      ≡ Option.map (retire_active issuer at) (find_record reference records)
unfolding find_record retire_all
find_record-retire_all reference issuer at [] = refl
find_record-retire_all reference issuer at ((k, s) ∷ records) =
    ground (arith, find_record-retire_all reference issuer at records)

pub require_record-eq-ok :
    (identity : KeyVersionIdentity) (records : Registry) {r : KeyVersionRecord}
    → require_record identity records ≡ ok r
    → find_record (record_reference identity) records ≡ some r
unfolding require_record
require_record-eq-ok identity records h = ground arith

-- What is found behind an addition was there before, or is the added record.
pub find_record-added :
    (reference k : Text) (records : Registry) (s r : KeyVersionRecord)
    → find_record reference (records ++ (k, s) ∷ []) ≡ some r
    → (find_record reference records ≡ some r) ⊎ ((k ≡ reference) × (s ≡ r))
unfolding find_record
find_record-added reference k [] s r h = ground (arith, list_eq_iff k reference)
find_record-added reference k ((l, t) ∷ records) s r h =
    ground (arith, find_record-added reference k records s r)

pub find_record-replaced :
    (reference changed : Text) (r' r s : KeyVersionRecord) (records : Registry)
    → find_record changed records ≡ some r
    → find_record reference (replace_record changed r' records) ≡ some s
    → ((changed ≡ reference) × (r' ≡ s)) ⊎ (find_record reference records ≡ some s)
find_record-replaced reference changed r' r s records h k =
    elim (Bool-cases (list_eq changed reference)) [
      | inl e ↦ inl (
        list_eq→eq changed reference e,
        cc (find_record-replace_record reference changed r' records r h, e),
      )
      | inr e ↦ inr (cc (find_record-replace_record reference changed r' records r h, e))
    ]

pub find_record-retired :
    (reference issuer at : Text) (s : KeyVersionRecord) (records : Registry)
    → find_record reference (retire_all issuer at records) ≡ some s
    → (r : KeyVersionRecord) × (find_record reference records ≡ some r)
      × (s ≡ retire_active issuer at r)
find_record-retired reference issuer at s records h =
    elim (Option-cases (find_record reference records)) [
      | inl e ↦ absurd (ground (arith, e, find_record-retire_all reference issuer at records))
      | inr (r, e) ↦ (r, e, ground (arith, e, find_record-retire_all reference issuer at records))
    ]

pub retire_active_of_authorized :
    (issuer at : Text) (r : KeyVersionRecord)
    → is_authorized r.status ≡ true
    → retire_active issuer at r ≡ r
unfolding retire_active
retire_active_of_authorized issuer at r h = ground arith
