-- ===== src/Core/KeyLifecycle/Phases.antt =====
-- The statuses of key-lifecycle.ts in the order of a key's life.
use credaryn.Base.{
  Option-cases, [], Result-cases, ok, ◌∷◌, List, inr, ap, subst, inl, Bool-cases, none, refl, some,
  ℕ, ◌≡◌, ◌≤◌, arith, ◌++◌, Option,
}
use credaryn.Core.KeyLifecycle.{
  same_public_identity, validate_record, record_reference, is_withdrawn, require_record, authorize,
  KeyVersionIdentity, retire, revoke, compromise, is_authorized, activate, replace_record,
  KeyVersionStatus, find_record, retire_all, KeyVersionRecord, Registry, retire_active,
}
use credaryn.Base.Text.{is_blank, list_eq→eq, list_eq, Text}
use credaryn.Core.KeyLifecycle.Lookup.{
  retire_active_of_authorized, require_record-eq-ok, find_record-replace_record, find_record-append,
  find_record-retire_all,
}
use credaryn.Core.KeyLifecycle.Commands.{
  compromising, revocation, retirement, activation, authorization, after, Command, execute,
  execute_all,
}

-- The order in which a key passes through its states.
abbrev pub phase : Option KeyVersionStatus → ℕ
phase none = 0
phase (some KeyVersionStatus.authorized) = 1
phase (some KeyVersionStatus.active) = 2
phase (some KeyVersionStatus.retired) = 3
phase (some KeyVersionStatus.revoked) = 4
phase (some KeyVersionStatus.compromised) = 4

pub record Advances (r r' : KeyVersionRecord) : Type 0 where
  pub forward : phase r.status ≤ phase r'.status
  pub identity : r'.identity ≡ r.identity
  pub key_info : r'.key_info ≡ r.key_info
  pub authorized_at : r'.authorized_at ≡ r.authorized_at

Advances-refl : (r : KeyVersionRecord) → Advances r r
Advances-refl r = ground arith

Advances-trans : (r s t : KeyVersionRecord) → Advances r s → Advances s t → Advances r t
Advances-trans r s t h k = ground arith

-- Every record that can be found stays to be found, further on in its life.
abbrev pub Preserves : Registry → Registry → Type 0
Preserves before after =
    (reference : Text) (r : KeyVersionRecord)
    → find_record reference before ≡ some r
    → (r' : KeyVersionRecord) × (find_record reference after ≡ some r') × Advances r r'

Preserves-refl : (records : Registry) → Preserves records records
Preserves-refl records reference r h = (r, h, Advances-refl r)

Preserves-trans : (a b c : Registry) → Preserves a b → Preserves b c → Preserves a c
Preserves-trans a b c f g reference r h =
    let (s, hs, rs) = f reference r h in
    let (t, ht, st) = g reference s hs in (t, ht, Advances-trans r s t rs st)

Preserves-append : (records more : Registry) → Preserves records (records ++ more)
Preserves-append records more reference r h =
    (r, find_record-append reference records more r h, Advances-refl r)

Preserves-replace_record :
    (changed : Text) (r r' : KeyVersionRecord) (records : Registry)
    → find_record changed records ≡ some r
    → Advances r r'
    → Preserves records (replace_record changed r' records)
Preserves-replace_record changed r r' records found adv reference s h =
    elim (Bool-cases (list_eq changed reference)) [
      | inl e ↦ (
        r',
        rw (find_record-replace_record reference changed r' records r found, e) refl,
        subst (λ t. Advances t r')
            (cc (ap (λ (t : Text). find_record t records) (list_eq→eq changed reference e))) adv,
      )
      | inr e ↦ (
        s,
        rw (find_record-replace_record reference changed r' records r found, e) h,
        Advances-refl s,
      )
    ]

retire_active-Advances :
    (issuer at : Text) (r : KeyVersionRecord) → Advances r (retire_active issuer at r)
unfolding retire_active
retire_active-Advances issuer at r = ground arith

Preserves-retire_all :
    (issuer at : Text) (records : Registry) → Preserves records (retire_all issuer at records)
Preserves-retire_all issuer at records reference r h = (
  retire_active issuer at r,
  rw (find_record-retire_all reference issuer at records, h) refl,
  retire_active-Advances issuer at r,
)

module _ (records : Registry) where
  authorize-Preserves :
      (input : KeyVersionRecord) → Preserves records (after records (authorize input records))
  unfolding authorize
  authorize-Preserves input = elim (Result-cases (validate_record input)) [
    | inr (e, p) ↦ rw p (Preserves-refl records)
    | inl (u, p) ↦ elim (Option-cases (find_record (record_reference input.identity) records)) [
      | inl missing ↦ rw (p, missing) (Preserves-append records _)
      | inr (existing, found) ↦ elim (Bool-cases (same_public_identity existing input)) [
        | inl same ↦ rw (p, found, same) (Preserves-refl records)
        | inr other ↦ rw (p, found, other) (Preserves-refl records)
      ]
    ]
  ]

  -- The shape that the other calls share: a record is required, and what replaces it is further on.
  changed-Preserves :
      (identity : KeyVersionIdentity) (r r' : KeyVersionRecord)
      → require_record identity records ≡ ok r
      → Advances r r'
      → Preserves records (replace_record (record_reference identity) r' records)
  changed-Preserves identity r r' h adv =
      Preserves-replace_record (record_reference identity) r r' records
        (require_record-eq-ok identity records h) adv

  retire-Preserves :
      (identity : KeyVersionIdentity) (at : Text) (reason : Option Text)
      → Preserves records (after records (retire identity at reason records))
  unfolding retire
  retire-Preserves identity at reason = elim (Result-cases (require_record identity records)) [
    | inr (e, p) ↦ rw p (Preserves-refl records)
    | inl (r, p) ↦ elim (Bool-cases (is_withdrawn r.status)) [
      | inl w ↦ rw (p, w) (Preserves-refl records)
      | inr w ↦ rw (p, w) (changed-Preserves identity r _ p (ground arith))
    ]
  ]

  revoke-Preserves :
      (identity : KeyVersionIdentity) (reason at : Text)
      → Preserves records (after records (revoke identity reason at records))
  unfolding revoke
  revoke-Preserves identity reason at = elim (Bool-cases (is_blank reason)) [
    | inl b ↦ rw b (Preserves-refl records)
    | inr b ↦ elim (Result-cases (require_record identity records)) [
      | inr (e, p) ↦ rw (b, p) (Preserves-refl records)
      | inl (r, p) ↦ rw (b, p) (changed-Preserves identity r _ p (ground arith))
    ]
  ]

  compromise-Preserves :
      (identity : KeyVersionIdentity) (reason at : Text)
      → Preserves records (after records (compromise identity reason at records))
  unfolding compromise
  compromise-Preserves identity reason at = elim (Bool-cases (is_blank reason)) [
    | inl b ↦ rw b (Preserves-refl records)
    | inr b ↦ elim (Result-cases (require_record identity records)) [
      | inr (e, p) ↦ rw (b, p) (Preserves-refl records)
      | inl (r, p) ↦ rw (b, p) (changed-Preserves identity r _ p (ground arith))
    ]
  ]

  activate-Preserves :
      (identity : KeyVersionIdentity) (at : Text)
      → Preserves records (after records (activate identity at records))
  unfolding activate
  activate-Preserves identity at = elim (Result-cases (require_record identity records)) [
    | inr (e, p) ↦ rw p (Preserves-refl records)
    | inl (r, p) ↦ elim (Bool-cases (is_authorized r.status)) [
      | inr w ↦ rw (p, w) (Preserves-refl records)
      | inl w ↦
          let retired : Registry = retire_all identity.issuer_id at records in
          let found : find_record (record_reference identity) retired ≡ some r =
            rw
              (
                find_record-retire_all (record_reference identity) identity.issuer_id at records,
                require_record-eq-ok identity records p,
              )
              (ap some (retire_active_of_authorized identity.issuer_id at r w)) in
          rw (p, w)
            (Preserves-trans records retired _ (Preserves-retire_all identity.issuer_id at records)
              (Preserves-replace_record (record_reference identity) r _ retired found
                (ground arith)))
    ]
  ]

  execute-Preserves : (c : Command) → Preserves records (execute records c)
  unfolding execute
  execute-Preserves (authorization input) = authorize-Preserves input
  execute-Preserves (activation identity at) = activate-Preserves identity at
  execute-Preserves (retirement identity at reason) = retire-Preserves identity at reason
  execute-Preserves (revocation identity reason at) = revoke-Preserves identity reason at
  execute-Preserves (compromising identity reason at) = compromise-Preserves identity reason at

-- Whatever calls follow, a registered key stays registered under the same identity and public key,
-- and its status never moves backwards in the order AUTHORIZED, ACTIVE, RETIRED, REVOKED or
-- COMPROMISED.
pub execute_all-Preserves :
    (records : Registry) (cs : List Command) → Preserves records (execute_all records cs)
unfolding execute_all
execute_all-Preserves records [] = Preserves-refl records
execute_all-Preserves records (c ∷ cs) =
    Preserves-trans records (execute records c) _ (execute-Preserves records c)
      (execute_all-Preserves (execute records c) cs)
