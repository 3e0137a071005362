-- ===== src/Core/KeyLifecycle/OneActive.antt =====
-- The calls of key-lifecycle.ts and the active keys of an issuer.
use credaryn.Core.KeyLifecycle.{
  is_authorized, activate, record_reference, replace_record, is_active, retire_all, find_record,
  require_record, retire_active, KeyVersionRecord, KeyVersionIdentity, Registry,
}
use credaryn.Core.KeyLifecycle.Active.{record_reference-injective, IsCleanIdentity, IsValid}
use credaryn.Base.Text.{list_eq_iff, Text}
use credaryn.Base.{
  All, List, ap, ◌∙◌, refl, sym, [], subst, ◌∷◌, arith, inl, some, false, inr, ◌≡◌, Result-cases,
  Bool-cases,
}
use credaryn.Core.KeyLifecycle.Commands.{
  compromising, revocation, retirement, activation, authorization, Command, execute, execute_all,
  after,
}
use credaryn.Core.KeyLifecycle.Lookup.{
  retire_active_of_authorized, find_record-retire_all, require_record-eq-ok, find_record-replaced,
  find_record-retired,
}
use credaryn.Core.KeyLifecycle.Kept.{
  compromise-IsValid, revoke-IsValid, active_clash, retire-IsValid, retire_all-IsValid,
  authorize-IsValid,
}

module _ (records : Registry) (v : IsValid records) where
  retired_inactive :
      (b issuer at : Text) (t : KeyVersionRecord)
      → find_record b (retire_all issuer at records) ≡ some t
      → t.identity.issuer_id ≡ issuer
      → is_active t.status ≡ false
  unfolding retire_active
  retired_inactive b issuer at t h e =
      let (r, k, same) = find_record-retired b issuer at t records h in
      ground (arith, list_eq_iff r.identity.issuer_id issuer, same)

  -- The record that becomes active, over the registry where the issuer has no other.
  activated-IsValid :
      (identity : KeyVersionIdentity) (at : Text) (r r' : KeyVersionRecord)
      → IsCleanIdentity identity
      → find_record (record_reference identity) records ≡ some r
      → find_record (record_reference identity) (retire_all identity.issuer_id at records) ≡ some r
      → r'.identity ≡ r.identity
      → IsValid
          (replace_record (record_reference identity) r' (retire_all identity.issuer_id at records))
  activated-IsValid identity at r r' clean found kept same =
      let changed : Text = record_reference identity in
      let retired : Registry = retire_all identity.issuer_id at records in
      let v' : IsValid retired = retire_all-IsValid records v identity.issuer_id at in
      let old : (changed ≡ record_reference r.identity) × IsCleanIdentity r.identity =
        v.keyed changed r found in
      let issuer : r'.identity.issuer_id ≡ identity.issuer_id =
        ap (λ i. i.issuer_id) same
        ∙ sym (record_reference-injective identity r.identity clean old.1 old.0).0 in
      record {
        one_active = λ a b s t h k p q e.
            elim (find_record-replaced a changed r' r s retired kept h) [
              | inl (ea, fa) ↦ elim (find_record-replaced b changed r' r t retired kept k) [
                | inl (eb, fb) ↦ sym ea ∙ eb
                | inr kb ↦ absurd (
                    active_clash t q (
                      retired_inactive b identity.issuer_id at t kb
                        (sym e ∙ ap (λ x. x.identity.issuer_id) (sym fa) ∙ issuer)))
              ]
              | inr ka ↦ elim (find_record-replaced b changed r' r t retired kept k) [
                | inl (eb, fb) ↦ absurd (
                    active_clash s p (
                      retired_inactive a identity.issuer_id at s ka
                        (e ∙ ap (λ x. x.identity.issuer_id) (sym fb) ∙ issuer)))
                | inr kb ↦ v'.one_active a b s t ka kb p q e
              ]
            ];
        keyed = λ a s h. elim (find_record-replaced a changed r' r s retired kept h) [
          | inl (ea, fa) ↦
              subst (λ i. (a ≡ record_reference i) × IsCleanIdentity i)
                (sym same ∙ ap (λ x. x.identity) fa) (sym ea ∙ old.0, old.1)
          | inr ka ↦ v'.keyed a s ka
        ];
      }

  activate-IsValid :
      (identity : KeyVersionIdentity) (at : Text)
      → IsCleanIdentity identity
      → IsValid (after records (activate identity at records))
  unfolding activate
  activate-IsValid identity at clean = elim (Result-cases (require_record identity records)) [
    | inr (e, p) ↦ rw p v
    | inl (r, p) ↦ elim (Bool-cases (is_authorized r.status)) [
      | inr w ↦ rw (p, w) v
      | inl w ↦
          let found : find_record (record_reference identity) records ≡ some r =
            require_record-eq-ok identity records p in
          let kept : find_record (record_reference identity)
                (retire_all identity.issuer_id at records)
              ≡ some r =
            rw
              (
                find_record-retire_all (record_reference identity) identity.issuer_id at records,
                found,
              )
              (ap some (retire_active_of_authorized identity.issuer_id at r w)) in
          rw (p, w) (activated-IsValid identity at r _ clean found kept refl)
    ]
  ]

abbrev pub IsCleanCommand : Command → Type 0
IsCleanCommand (authorization input) = IsCleanIdentity input.identity
IsCleanCommand (activation identity at) = IsCleanIdentity identity
IsCleanCommand (retirement identity at reason) = Unit
IsCleanCommand (revocation identity reason at) = Unit
IsCleanCommand (compromising identity reason at) = Unit

execute-IsValid :
    (records : Registry) (c : Command)
    → IsValid records
    → IsCleanCommand c
    → IsValid (execute records c)
unfolding execute
execute-IsValid records (authorization input) v clean = authorize-IsValid records v input clean
execute-IsValid records (activation identity at) v clean =
    activate-IsValid records v identity at clean
execute-IsValid records (retirement identity at reason) v clean =
    retire-IsValid records v identity at reason
execute-IsValid records (revocation identity reason at) v clean =
    revoke-IsValid records v identity reason at
execute-IsValid records (compromising identity reason at) v clean =
    compromise-IsValid records v identity reason at

-- From a registry in which an issuer has one active key at most and every entry stands under the
-- reference of its record, any sequence of calls leads to another such registry, if the identities
-- that are authorized and activated hold no U+0000.
pub execute_all-IsValid :
    (records : Registry) (cs : List Command)
    → IsValid records
    → All IsCleanCommand cs
    → IsValid (execute_all records cs)
unfolding execute_all
execute_all-IsValid records [] v clean = v
execute_all-IsValid records (c ∷ cs) v (clean, rest) =
    execute_all-IsValid (execute records c) cs (execute-IsValid records c v clean) rest
