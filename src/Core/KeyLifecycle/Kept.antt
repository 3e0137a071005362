-- ===== src/Core/KeyLifecycle/Kept.antt =====
-- The calls of key-lifecycle.ts, except activate, and the active keys of an issuer.
use credaryn.Core.KeyLifecycle.{
  same_public_identity, KeyVersionStatus, record_reference, is_withdrawn, replace_record,
  validate_record, is_active, retire_all, find_record, require_record, retire_active,
  KeyVersionRecord, KeyVersionIdentity, authorize, retire, revoke, compromise, Registry,
}
use credaryn.Core.KeyLifecycle.Active.{Shrinks-IsValid, IsCleanIdentity, Keyed, Shrinks, IsValid}
use credaryn.Base.Text.{is_blank, Text}
use credaryn.Base.{
  true, ap, ◌∙◌, refl, sym, [], subst, ◌∷◌, arith, Option-cases, ◌++◌, inl, some, ok, false, inr,
  ◌≡◌, Result-cases, Bool-cases, Option,
}
use credaryn.Core.KeyLifecycle.Commands.{after}
use credaryn.Core.KeyLifecycle.Lookup.{
  find_record-added, require_record-eq-ok, find_record-replaced, find_record-retired,
}

pub active_clash :
    (t : KeyVersionRecord) → is_active t.status ≡ true → is_active t.status ≡ false → ⊥
active_clash t p q = cc

module _ (records : Registry) (v : IsValid records) where
  -- A record that is replaced by one that is not active.
  pub replaced-IsValid :
      (changed : Text) (r r' : KeyVersionRecord)
      → find_record changed records ≡ some r
      → r'.identity ≡ r.identity
      → is_active r'.status ≡ false
      → IsValid (replace_record changed r' records)
  unfolding Shrinks Keyed
  replaced-IsValid changed r r' found same inactive =
      Shrinks-IsValid records _ v
        (λ a s h p. elim (find_record-replaced a changed r' r s records found h) [
          | inl (e, f) ↦ absurd (ground arith)
          | inr k ↦ (s, k, p, refl)
        ])
        (λ a s h. elim (find_record-replaced a changed r' r s records found h) [
          | inl (e, f) ↦
              let old : (changed ≡ record_reference r.identity) × IsCleanIdentity r.identity =
                v.keyed changed r found in
              subst (λ i. (a ≡ record_reference i) × IsCleanIdentity i)
                (sym same ∙ ap (λ t. t.identity) f) (sym e ∙ old.0, old.1)
          | inr k ↦ v.keyed a s k
        ])

  pub changed-IsValid :
      (identity : KeyVersionIdentity) (r r' : KeyVersionRecord)
      → require_record identity records ≡ ok r
      → r'.identity ≡ r.identity
      → is_active r'.status ≡ false
      → IsValid (replace_record (record_reference identity) r' records)
  changed-IsValid identity r r' h same inactive =
      replaced-IsValid (record_reference identity) r r' (require_record-eq-ok identity records h)
        same inactive

  pub added-IsValid :
      (input : KeyVersionRecord)
      → IsCleanIdentity input.identity
      → is_active input.status ≡ false
      → IsValid (records ++ (record_reference input.identity, input) ∷ [])
  unfolding Shrinks Keyed
  added-IsValid input clean inactive =
      Shrinks-IsValid records _ v
        (λ a s h p. elim (find_record-added a (record_reference input.identity) records input s h) [
          | inl k ↦ (s, k, p, refl)
          | inr (e, f) ↦ absurd (ground arith)
        ])
        (λ a s h. elim (find_record-added a (record_reference input.identity) records input s h) [
          | inl k ↦ v.keyed a s k
          | inr (e, f) ↦
              subst (λ t. (a ≡ record_reference t.identity) × IsCleanIdentity t.identity) f
                (sym e, clean)
        ])

  pub retire_all-IsValid : (issuer at : Text) → IsValid (retire_all issuer at records)
  unfolding Shrinks Keyed retire_active
  retire_all-IsValid issuer at =
      Shrinks-IsValid records _ v
        (λ a s h p.
          let (r, k, e) = find_record-retired a issuer at s records h in
          (r, k, ground arith, ground arith))
        (λ a s h.
          let (r, k, e) = find_record-retired a issuer at s records h in
          let same : r.identity ≡ s.identity = ground arith in
          subst (λ i. (a ≡ record_reference i) × IsCleanIdentity i) same (v.keyed a r k))

  pub authorize-IsValid :
      (input : KeyVersionRecord)
      → IsCleanIdentity input.identity
      → IsValid (after records (authorize input records))
  unfolding authorize
  authorize-IsValid input clean = elim (Result-cases (validate_record input)) [
    | inr (e, p) ↦ rw p v
    | inl (u, p) ↦ elim (Option-cases (find_record (record_reference input.identity) records)) [
      | inl missing ↦
          rw (p, missing)
            (added-IsValid (record input { status = some KeyVersionStatus.authorized }) clean refl)
      | inr (existing, found) ↦ elim (Bool-cases (same_public_identity existing input)) [
        | inl same ↦ rw (p, found, same) v
        | inr other ↦ rw (p, found, other) v
      ]
    ]
  ]

  pub retire-IsValid :
      (identity : KeyVersionIdentity) (at : Text) (reason : Option Text)
      → IsValid (after records (retire identity at reason records))
  unfolding retire
  retire-IsValid identity at reason = elim (Result-cases (require_record identity records)) [
    | inr (e, p) ↦ rw p v
    | inl (r, p) ↦ elim (Bool-cases (is_withdrawn r.status)) [
      | inl w ↦ rw (p, w) v
      | inr w ↦ rw (p, w) (changed-IsValid identity r _ p refl refl)
    ]
  ]

  pub revoke-IsValid :
      (identity : KeyVersionIdentity) (reason at : Text)
      → IsValid (after records (revoke identity reason at records))
  unfolding revoke
  revoke-IsValid identity reason at = elim (Bool-cases (is_blank reason)) [
    | inl b ↦ rw b v
    | inr b ↦ elim (Result-cases (require_record identity records)) [
      | inr (e, p) ↦ rw (b, p) v
      | inl (r, p) ↦ rw (b, p) (changed-IsValid identity r _ p refl refl)
    ]
  ]

  pub compromise-IsValid :
      (identity : KeyVersionIdentity) (reason at : Text)
      → IsValid (after records (compromise identity reason at records))
  unfolding compromise
  compromise-IsValid identity reason at = elim (Bool-cases (is_blank reason)) [
    | inl b ↦ rw b v
    | inr b ↦ elim (Result-cases (require_record identity records)) [
      | inr (e, p) ↦ rw (b, p) v
      | inl (r, p) ↦ rw (b, p) (changed-IsValid identity r _ p refl refl)
    ]
  ]
