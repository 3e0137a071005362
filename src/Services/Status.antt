-- ===== src/Services/Status.antt =====
-- services/status/src/status-repository.ts and status-service.ts: the repository in memory and the
-- service on it, call by call. The clock is an argument of each call, `Date.parse` a parameter.
pub mod Lifecycle
use credaryn.Base.Maps.{lookup, put}
use credaryn.Core.Document.{LifecycleStatus}
use credaryn.Base.Text.{is_blank, Text}
use credaryn.Base.{
  int_sub, err, ◌+◌, negsuc, ok, sub_ℕ, pos, not, refuse_if, is_positive, ◌∷◌, none, false, ◌&&◌,
  ◌>>◌, if◌then◌else◌, ◌++◌, [], true, some, Result, ℕ, Option, List, Bool, ℤ,
}

-- `LifecycleStatus` without UNCHECKED.
pub data StatusState : Type 0 where
  active revoked cancelled superseded expired : StatusState

pub data StatusFreshness : Type 0 where
  fresh stale unavailable : StatusFreshness

pub record StatusReference : Type 0 where
  pub issuer_id : Text
  pub document_id : Text

pub record StatusRecord : Type 0 where
  pub reference : StatusReference
  pub key_id : Option Text
  pub status : StatusState
  pub reason : Text
  pub updated_at : Text

pub record StatusTransitionInput : Type 0 where
  pub reference : StatusReference
  pub key_id : Option Text
  pub status : StatusState
  pub reason : Text

-- The two maps of `InMemoryStatusRepository`.
pub record Repository : Type 0 where
  pub current_records : List (Text × StatusRecord)
  pub history_records : List (Text × List StatusRecord)

-- `${issuerId}\u0000${documentId}`
unfoldable pub status_reference_key : StatusReference → Text
status_reference_key reference = reference.issuer_id ++ 0 ∷ reference.document_id

abbrev pub or_empty : Option (List StatusRecord) → List StatusRecord
or_empty none = []
or_empty (some records) = records

unfoldable pub append_record : StatusRecord → Repository → Repository
append_record r repository =
    let key = status_reference_key r.reference in
    record {
      current_records = put key r repository.current_records;
      history_records =
          put key (or_empty (lookup key repository.history_records) ++ r ∷ [])
            repository.history_records;
    }

unfoldable pub current : StatusReference → Repository → Option StatusRecord
current reference repository = lookup (status_reference_key reference) repository.current_records

unfoldable pub history : StatusReference → Repository → List StatusRecord
history reference repository =
    or_empty (lookup (status_reference_key reference) repository.history_records)

abbrev pub is_active : StatusState → Bool
is_active StatusState.active = true
is_active _ = false

abbrev pub is_allowed : Option StatusRecord → StatusState → Bool
is_allowed none next = is_active next
is_allowed (some previous) next = is_active previous.status && not (is_active next)

pub data StatusError : Type 0 where
  service_unavailable reason_required : StatusError
  invalid_transition : Option StatusState → StatusState → StatusError

abbrev status_of : Option StatusRecord → Option StatusState
status_of none = none
status_of (some r) = some r.status

-- `transition`, on an available service or not, at a time.
unfoldable pub transition :
    Bool
    → Text
    → StatusTransitionInput
    → Repository
    → Result StatusError (Repository × StatusRecord)
transition available now input repository = do
  refuse_if (not available) service_unavailable
  refuse_if (is_blank input.reason) reason_required
  let previous = current input.reference repository
  refuse_if (not (is_allowed previous input.status))
      (invalid_transition (status_of previous) input.status)
  let r : StatusRecord = record {
    reference = input.reference;
    key_id = input.key_id;
    status = input.status;
    reason = input.reason;
    updated_at = now;
  }
  ok (append_record r repository, r)

pub record StatusLookup : Type 0 where
  pub reference : StatusReference
  pub key_id : Option Text
  pub lifecycle_status : LifecycleStatus
  pub freshness : StatusFreshness
  pub found : Option StatusRecord

abbrev pub lifecycle_of : StatusState → LifecycleStatus
lifecycle_of StatusState.active = LifecycleStatus.active
lifecycle_of StatusState.revoked = LifecycleStatus.revoked
lifecycle_of StatusState.cancelled = LifecycleStatus.cancelled
lifecycle_of StatusState.superseded = LifecycleStatus.superseded
lifecycle_of StatusState.expired = LifecycleStatus.expired

abbrev pub is_fresh : StatusFreshness → Bool
is_fresh fresh = true
is_fresh _ = false

-- A record without a readable date counts as fresh.
unfoldable pub freshness_of : Option ℤ → Option ℤ → ℕ → StatusFreshness
freshness_of (some now) (some updated) max_age_ms =
    if is_positive (int_sub (int_sub now updated) (pos max_age_ms)) then stale else fresh
freshness_of _ _ max_age_ms = fresh

module _ (parse_date : Text → Option ℤ) where
  unfoldable pub lookup_of : Text → ℕ → Bool → StatusReference → Option StatusRecord → StatusLookup
  lookup_of now max_age_ms require_freshness reference' none = record {
    reference = reference';
    key_id = none;
    lifecycle_status = LifecycleStatus.unchecked;
    freshness = fresh;
    found = none;
  }
  lookup_of now max_age_ms require_freshness reference' (some r) =
      let age = freshness_of (parse_date now) (parse_date r.updated_at) max_age_ms in
      record {
        reference = reference';
        key_id = r.key_id;
        lifecycle_status =
            if require_freshness && not (is_fresh age)
            then LifecycleStatus.unchecked
            else lifecycle_of r.status;
        freshness = age;
        found = some r;
      }

  -- `get`.
  unfoldable pub get_status : Bool → Text → ℕ → Bool → StatusReference → Repository → StatusLookup
  get_status true now max_age_ms require_freshness reference' repository =
      lookup_of now max_age_ms require_freshness reference' (current reference' repository)
  get_status false now max_age_ms require_freshness reference' repository = record {
    reference = reference';
    key_id = none;
    lifecycle_status = LifecycleStatus.unchecked;
    freshness = unavailable;
    found = none;
  }

-- A call of `transition`, and runs of calls: one that throws leaves the repository as it is.
pub record Request : Type 0 where
  pub available : Bool
  pub now : Text
  pub input : StatusTransitionInput

unfoldable pub serve : Request → Repository → Repository
serve request repository =
    elim (transition request.available request.now request.input repository) [
      | ok (repository', r) ↦ repository'
      | err e ↦ repository
    ]

unfoldable pub serve_all : List Request → Repository → Repository
serve_all [] repository = repository
serve_all (request ∷ requests) repository = serve_all requests (serve request repository)
