-- ===== src/Core/KeyLifecycle/Active.antt =====
-- The active keys of an issuer in key-lifecycle.ts. References separate the parts of an identity by
-- U+0000, so they stand for the identity where the parts hold no such character.
use credaryn.Base.Text.{Text}
use credaryn.Core.KeyLifecycle.{
  is_active, KeyVersionRecord, KeyVersionIdentity, record_reference, Registry, find_record,
}
use credaryn.Base.{true, arith, sym, ◌≢◌, ◌∷◌, some, ◌∙◌, All, ◌++◌, ◌≡◌, [], ap}

abbrev pub IsClean : Text → Type 0
IsClean s = All (λ c. c ≢ 0) s

abbrev pub IsCleanIdentity : KeyVersionIdentity → Type 0
IsCleanIdentity identity = IsClean identity.issuer_id × IsClean identity.key_id

-- What stands before the first separator, and what follows it.
pub before_separator :
    (xs ys s t : Text) → xs ++ 0 ∷ s ≡ ys ++ 0 ∷ t → IsClean xs → IsClean ys → (xs ≡ ys) × (s ≡ t)
before_separator [] [] s t e h k = ground arith
before_separator [] (y ∷ ys) s t e h (k, ks) = absurd (ground arith)
before_separator (x ∷ xs) [] s t e (h, hs) k = absurd (ground arith)
before_separator (x ∷ xs) (y ∷ ys) s t e (h, hs) (k, ks) =
    ground (arith, before_separator xs ys s t (ground arith) hs ks)

-- A reference determines the issuer, the key and the version.
pub record_reference-injective :
    (i j : KeyVersionIdentity)
    → IsCleanIdentity i
    → IsCleanIdentity j
    → record_reference i ≡ record_reference j
    → (i.issuer_id ≡ j.issuer_id) × (i.key_id ≡ j.key_id) × (i.version ≡ j.version)
unfolding record_reference
record_reference-injective i j (h, h') (k, k') e =
    let (a, rest) = before_separator i.issuer_id j.issuer_id _ _ e h k in
    let (b, c) = before_separator i.key_id j.key_id _ _ rest h' k' in (a, b, c)

-- Two active keys of one issuer are one key; entries stand under the reference of their record.
pub record IsValid (records : Registry) : Type 0 where
  pub one_active :
      (a b : Text) (r s : KeyVersionRecord)
      → find_record a records ≡ some r
      → find_record b records ≡ some s
      → is_active r.status ≡ true
      → is_active s.status ≡ true
      → r.identity.issuer_id ≡ s.identity.issuer_id
      → a ≡ b
  pub keyed :
      (a : Text) (r : KeyVersionRecord)
      → find_record a records ≡ some r
      → (a ≡ record_reference r.identity) × IsCleanIdentity r.identity

pub IsValid-nil : IsValid []
unfolding find_record
IsValid-nil = record { one_active = λ a b r s h k p q e. cc; keyed = λ a r h. cc }

-- Every active record of the second registry was active in the first.
unfoldable pub Shrinks : Registry → Registry → Type 0
Shrinks before after =
    (a : Text) (r' : KeyVersionRecord)
    → find_record a after ≡ some r'
    → (is_active r'.status ≡ true)
    → (r : KeyVersionRecord) × (find_record a before ≡ some r)
      × (is_active r.status ≡ true)
      × (r.identity ≡ r'.identity)

unfoldable pub Keyed : Registry → Type 0
Keyed records =
    (a : Text) (r : KeyVersionRecord)
    → find_record a records ≡ some r
    → (a ≡ record_reference r.identity) × IsCleanIdentity r.identity

pub Shrinks-IsValid :
    (records records' : Registry)
    → IsValid records
    → Shrinks records records'
    → Keyed records'
    → IsValid records'
unfolding Shrinks Keyed
Shrinks-IsValid records records' v f keyed = record {
  one_active = λ a b r s h k p q e.
      let (r0, h0, p0, i0) = f a r h p in
      let (s0, k0, q0, j0) = f b s k q in
      v.one_active a b r0 s0 h0 k0 p0 q0
        (ap (λ i. i.issuer_id) i0 ∙ e ∙ ap (λ i. i.issuer_id) (sym j0));
  keyed = keyed;
}
