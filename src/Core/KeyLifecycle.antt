-- ===== src/Core/KeyLifecycle.antt =====
-- packages/core/src/key-lifecycle.ts: the registry of key versions. The `Map` is a list of its
-- entries in insertion order; a record that the code changes in place is replaced in the list.
pub mod Commands
pub mod Lookup
pub mod Phases
pub mod Active
pub mod Kept
pub mod OneActive
use credaryn.Base.Text.{is_blank, Text, list_eq}
use credaryn.Core.Signer.{es256, SignerKeyInfo}
use credaryn.Base.{
  ◌==◌, length, ◌||◌, not, [], refuse_if, err, false, ◌++◌, none, ◌>>◌, ◌&&◌, ok, some,
  if◌then◌else◌, ◌>>=◌, true, ◌∷◌, Option, List, Result, Bool,
}

pub data KeyVersionStatus : Type 0 where
  authorized active retired revoked compromised : KeyVersionStatus

pub record KeyVersionIdentity : Type 0 where
  pub issuer_id : Text
  pub key_id : Text
  pub version : Text
  pub certificate_fingerprint : Text

pub record KeyVersionRecord : Type 0 where
  pub identity : KeyVersionIdentity
  pub key_info : SignerKeyInfo
  pub status : Option KeyVersionStatus
  pub authorized_at : Text
  pub activated_at : Option Text
  pub retired_at : Option Text
  pub revoked_at : Option Text
  pub compromised_at : Option Text
  pub reason : Option Text

-- The messages of `KeyLifecycleError`.
pub data KeyLifecycleError : Type 0 where
  unsupported_algorithm identity_mismatch empty_identity empty_fingerprint : KeyLifecycleError
  empty_public_key reused_identity unknown_key reason_required : KeyLifecycleError
  not_authorized not_retirable : Option KeyVersionStatus → KeyLifecycleError
  no_active_key : Text → KeyLifecycleError
  empty_key_id_or_version : KeyLifecycleError

abbrev pub Registry : Type 0
Registry = List (Text × KeyVersionRecord)

unfoldable pub record_reference : KeyVersionIdentity → Text
record_reference identity = identity.issuer_id ++ 0 ∷ (identity.key_id ++ 0 ∷ identity.version)

-- `this.records.get(reference)`.
unfoldable pub find_record : Text → Registry → Option KeyVersionRecord
unfolding list_eq
find_record reference [] = none
find_record reference ((k, r) ∷ records) =
    if list_eq k reference then some r else find_record reference records

-- A change in place to the record at a reference.
unfoldable pub replace_record : Text → KeyVersionRecord → Registry → Registry
unfolding list_eq
replace_record reference r [] = []
replace_record reference r ((k, s) ∷ records) =
    if list_eq k reference then (k, r) ∷ records else (k, s) ∷ replace_record reference r records

unfoldable pub validate_record : KeyVersionRecord → Result KeyLifecycleError (Unit {0})
validate_record r = do
  refuse_if (not (list_eq r.key_info.algorithm es256)) unsupported_algorithm
  refuse_if
      (not (list_eq r.key_info.issuer_id r.identity.issuer_id)
        || not (list_eq r.key_info.key_id r.identity.key_id))
      identity_mismatch
  refuse_if
      (is_blank r.identity.issuer_id || (is_blank r.identity.key_id || is_blank r.identity.version))
      empty_identity
  refuse_if (is_blank r.identity.certificate_fingerprint) empty_fingerprint
  refuse_if (length r.key_info.public_key == 0) empty_public_key

unfoldable pub same_public_identity : KeyVersionRecord → KeyVersionRecord → Bool
same_public_identity left right =
    list_eq left.identity.certificate_fingerprint right.identity.certificate_fingerprint
    && list_eq left.key_info.public_key right.key_info.public_key

abbrev existing_or_error :
    Bool → KeyVersionRecord → Registry → Result KeyLifecycleError (Registry × KeyVersionRecord)
existing_or_error true existing records = ok (records, existing)
existing_or_error false existing records = err reused_identity

-- `authorize`. A clone of a record is the record.
unfoldable pub authorize :
    KeyVersionRecord → Registry → Result KeyLifecycleError (Registry × KeyVersionRecord)
unfolding validate_record same_public_identity find_record record_reference
authorize input records = do
  validate_record input
  elim (find_record (record_reference input.identity) records) [
    | some existing ↦ existing_or_error (same_public_identity existing input) existing records
    | none ↦
        let stored : KeyVersionRecord = record input {
          status = some KeyVersionStatus.authorized;
        } in
        ok (records ++ (record_reference input.identity, stored) ∷ [], stored)
  ]

unfoldable pub require_record :
    KeyVersionIdentity → Registry → Result KeyLifecycleError KeyVersionRecord
unfolding find_record record_reference
require_record identity records = elim (find_record (record_reference identity) records) [
  | none ↦ err unknown_key
  | some r ↦ ok r
]

abbrev pub is_authorized : Option KeyVersionStatus → Bool
is_authorized (some KeyVersionStatus.authorized) = true
is_authorized _ = false

abbrev pub is_active : Option KeyVersionStatus → Bool
is_active (some KeyVersionStatus.active) = true
is_active _ = false

abbrev pub is_withdrawn : Option KeyVersionStatus → Bool
is_withdrawn (some KeyVersionStatus.revoked) = true
is_withdrawn (some KeyVersionStatus.compromised) = true
is_withdrawn _ = false

-- One candidate of the loop in `activate`.
unfoldable pub retire_active : Text → Text → KeyVersionRecord → KeyVersionRecord
unfolding list_eq
retire_active issuer at candidate =
    if list_eq candidate.identity.issuer_id issuer && is_active candidate.status
    then record candidate { status = some KeyVersionStatus.retired; retired_at = some at }
    else candidate

unfoldable pub retire_all : Text → Text → Registry → Registry
unfolding retire_active
retire_all issuer at [] = []
retire_all issuer at ((k, r) ∷ records) =
    (k, retire_active issuer at r) ∷ retire_all issuer at records

-- `activate`. The record is AUTHORIZED, so the loop leaves it as it is.
unfoldable pub activate :
    KeyVersionIdentity → Text → Registry → Result KeyLifecycleError (Registry × KeyVersionRecord)
unfolding require_record retire_all replace_record
activate identity at records = do
  r ← require_record identity records
  refuse_if (not (is_authorized r.status)) (not_authorized r.status)
  let r' : KeyVersionRecord = record r {
    status = some KeyVersionStatus.active;
    activated_at = some at;
  }
  ok (replace_record (record_reference identity) r' (retire_all identity.issuer_id at records), r')

abbrev reason_or : Option Text → Option Text → Option Text
reason_or none old = old
reason_or (some reason) old = some reason

unfoldable pub retire :
    KeyVersionIdentity
    → Text
    → Option Text
    → Registry
    → Result KeyLifecycleError (Registry × KeyVersionRecord)
unfolding require_record replace_record
retire identity at reason records = do
  r ← require_record identity records
  refuse_if (is_withdrawn r.status) (not_retirable r.status)
  let r' : KeyVersionRecord = record r {
    status = some KeyVersionStatus.retired;
    retired_at = some at;
    reason = reason_or reason r.reason;
  }
  ok (replace_record (record_reference identity) r' records, r')

unfoldable pub revoke :
    KeyVersionIdentity
    → Text
    → Text
    → Registry
    → Result KeyLifecycleError (Registry × KeyVersionRecord)
unfolding require_record replace_record
revoke identity reason at records = do
  refuse_if (is_blank reason) reason_required
  r ← require_record identity records
  let r' : KeyVersionRecord = record r {
    status = some KeyVersionStatus.revoked;
    reason = some reason;
    revoked_at = some at;
  }
  ok (replace_record (record_reference identity) r' records, r')

unfoldable pub compromise :
    KeyVersionIdentity
    → Text
    → Text
    → Registry
    → Result KeyLifecycleError (Registry × KeyVersionRecord)
unfolding require_record replace_record
compromise identity reason at records = do
  refuse_if (is_blank reason) reason_required
  r ← require_record identity records
  let r' : KeyVersionRecord = record r {
    status = some KeyVersionStatus.compromised;
    reason = some reason;
    compromised_at = some at;
  }
  ok (replace_record (record_reference identity) r' records, r')

unfoldable pub get_active : Text → Registry → Option KeyVersionRecord
unfolding list_eq
get_active issuer [] = none
get_active issuer ((k, r) ∷ records) =
    if list_eq r.identity.issuer_id issuer && is_active r.status
    then some r
    else get_active issuer records

unfoldable pub resolve : KeyVersionIdentity → Registry → Option KeyVersionRecord
resolve identity records = find_record (record_reference identity) records

abbrev of_issuer : Option Text → KeyVersionRecord → Bool
of_issuer none r = true
of_issuer (some issuer) r = list_eq r.identity.issuer_id issuer

unfoldable pub list_records : Option Text → Registry → List KeyVersionRecord
unfolding list_eq
list_records issuer [] = []
list_records issuer ((k, r) ∷ records) =
    let rest = list_records issuer records in if of_issuer issuer r then r ∷ rest else rest

unfoldable pub get_signing_key : Text → Registry → Result KeyLifecycleError KeyVersionRecord
unfolding get_active
get_signing_key issuer records = elim (get_active issuer records) [
  | none ↦ err (no_active_key issuer)
  | some r ↦ ok r
]

unfoldable pub versioned_key_id : Text → Text → Result KeyLifecycleError Text
versioned_key_id key_id key_version = do
  refuse_if (is_blank key_id || is_blank key_version) empty_key_id_or_version
  ok (key_id ++ b'@' ∷ key_version)
