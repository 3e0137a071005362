-- ===== src/Node/Sealed.antt =====
-- credaryn.ts: when the class Credaryn seals.
use credaryn.Base.{
  passed, refuse_if, ◌++◌, false, ◌↔◌, map_err-eq-ok, map_err, refl, >>=-eq-ok, inr, Bool, required,
  Option-cases, inl, Option, true, ok, some, ◌⊎◌, none, ◌≡◌,
}
use credaryn.Node.{
  descriptor_refused, placement_unsupported, rejected, timestamping_unsupported, key_not_active,
  Credaryn,
}
use credaryn.Node.Seal.{
  level_of, SealPdfOptions, assert_valid, seal_pdf, check_active, assert_signing_key_is_active,
  assert_timestamp_capability, is_signers,
}
use credaryn.Core.KeyLifecycle.{Registry, KeyVersionRecord, get_active}
use credaryn.Core.Signer.{SignerKeyInfo}
use credaryn.Base.Text.{codes, Text, Bytes}
use credaryn.Core.Descriptor.{Unknown, Url}
use credaryn.Core.Document.{DocumentDescriptor}
use credaryn.Core.Descriptor.Validate.{validate_descriptor}

-- There is no registry, or the active key of the issuer is the key of the signer.
abbrev pub MaySign : Credaryn → Type 0
MaySign credaryn =
    (credaryn.key_lifecycle ≡ none)
    ⊎ ((registry : Registry) × (info : SignerKeyInfo) × (active : KeyVersionRecord)
        × (credaryn.key_lifecycle ≡ some registry)
        × (credaryn.paper_signer.get_key_info ≡ ok info)
        × (get_active info.issuer_id registry ≡ some active)
        × (is_signers info active ≡ true))

check_active-eq-ok :
    (info : SignerKeyInfo) (found : Option KeyVersionRecord)
    → check_active info found ≡ ok tt
    → (active : KeyVersionRecord) × (found ≡ some active) × (is_signers info active ≡ true)
unfolding check_active
check_active-eq-ok info none h = cc
check_active-eq-ok info (some active) h =
    (active, refl, required (is_signers info active) key_not_active h)

assert_signing_key-MaySign :
    (credaryn : Credaryn) → assert_signing_key_is_active credaryn ≡ ok tt → MaySign credaryn
unfolding assert_signing_key_is_active
assert_signing_key-MaySign credaryn h = elim (Option-cases credaryn.key_lifecycle) [
  | inl n ↦ inl n
  | inr (registry, r) ↦
      let (info, i, h1) =
        >>=-eq-ok (map_err (λ _. rejected) credaryn.paper_signer.get_key_info) _
          (rw (assert_signing_key_is_active, r) at h) in
      let (active, a, same) = check_active-eq-ok info (get_active info.issuer_id registry) h1 in
      inr (
        registry,
        info,
        active,
        r,
        map_err-eq-ok (λ _. rejected) credaryn.paper_signer.get_key_info i,
        a,
        same,
      )
]

MaySign-assert_signing_key :
    (credaryn : Credaryn) → MaySign credaryn → assert_signing_key_is_active credaryn ≡ ok tt
unfolding assert_signing_key_is_active check_active
MaySign-assert_signing_key credaryn (inl n) = rw (assert_signing_key_is_active, n) refl
MaySign-assert_signing_key credaryn (inr (registry, info, active, r, i, a, same)) =
    rw (assert_signing_key_is_active, r, i, a, check_active, same) refl

-- What the timestamp of an option asks of the engine.
abbrev pub CanStamp : Credaryn → Option Text → Type 0
CanStamp credaryn url = (url ≡ none) ⊎ (credaryn.pdf_engine.supports_timestamping ≡ true)

assert_timestamp-CanStamp :
    (credaryn : Credaryn) (url : Option Text)
    → assert_timestamp_capability credaryn url ≡ ok tt
    → CanStamp credaryn url
unfolding assert_timestamp_capability
assert_timestamp-CanStamp credaryn none h = inl refl
assert_timestamp-CanStamp credaryn (some url) h =
    inr (required credaryn.pdf_engine.supports_timestamping timestamping_unsupported h)

CanStamp-assert_timestamp :
    (credaryn : Credaryn) (url : Option Text)
    → CanStamp credaryn url
    → assert_timestamp_capability credaryn url ≡ ok tt
unfolding assert_timestamp_capability
CanStamp-assert_timestamp credaryn url (inl n) = rw n refl
CanStamp-assert_timestamp credaryn none (inr s) = refl
CanStamp-assert_timestamp credaryn (some url) (inr s) = rw s refl

module _ (sha256_hex : Bytes → Text) (date_parses : Text → Bool) (parse_url : Text → Option Url)
    (credaryn : Credaryn) (descriptor : Unknown) where
  -- The descriptor is valid, with explicit currencies.
  abbrev pub IsValidDescriptor : Type 0
  IsValidDescriptor =
      (valid : DocumentDescriptor) × (validate_descriptor date_parses parse_url descriptor
          (record { environment = credaryn.environment; require_explicit_currency = true })
        ≡ ok valid)

  -- A PDF is sealed exactly when the descriptor is valid with explicit currencies, no paper seal
  -- is asked for, the engine can timestamp (if a timestamp is asked for), there is no key registry
  -- or the active key of the issuer of the signer is the key of the signer, and the engine signs
  -- the request, which has the level of the options and the digest of the bytes.
  pub seal_pdf-eq-ok_iff :
      (pdf_bytes : Bytes) (options : SealPdfOptions) (sealed : Bytes)
      → (seal_pdf sha256_hex date_parses parse_url credaryn pdf_bytes descriptor options
          ≡ ok sealed)
        ↔ (IsValidDescriptor
            × (options.include_paper_seal ≡ false)
            × CanStamp credaryn options.timestamp_authority_url
            × MaySign credaryn
            × (credaryn.pdf_engine.sign pdf_bytes (record {
              signer = credaryn.paper_signer;
              level = level_of options.timestamp_authority_url;
              artifact_digest = codes "sha256:" ++ sha256_hex pdf_bytes;
            })
                ≡ ok sealed))
  unfolding seal_pdf assert_valid
  seal_pdf-eq-ok_iff pdf_bytes options sealed = (
    (λ h.
        let (valid, v, h1) =
          >>=-eq-ok (assert_valid sha256_hex date_parses parse_url credaryn descriptor) _ h in
        let (_, guard, h2) =
          >>=-eq-ok (refuse_if options.include_paper_seal placement_unsupported) _ h1 in
        let (_, stamp, h3) =
          >>=-eq-ok (assert_timestamp_capability credaryn options.timestamp_authority_url) _ h2 in
        let (_, active, h4) = >>=-eq-ok (assert_signing_key_is_active credaryn) _ h3 in
        (
          (valid, map_err-eq-ok descriptor_refused _ v),
          passed options.include_paper_seal placement_unsupported guard,
          assert_timestamp-CanStamp credaryn options.timestamp_authority_url stamp,
          assert_signing_key-MaySign credaryn active,
          map_err-eq-ok (λ _. rejected) _ h4,
        )),
    (λ (v, paper, stamp, active, signed).
        rw
          (
            seal_pdf,
            assert_valid,
            v.1,
            paper,
            CanStamp-assert_timestamp credaryn options.timestamp_authority_url stamp,
            MaySign-assert_signing_key credaryn active,
            signed,
          )
          refl),
  )
