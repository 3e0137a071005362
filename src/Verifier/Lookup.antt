-- ===== src/Verifier/Lookup.antt =====
-- packages/verifier/src/status.ts: applyStatusResolver.
use credaryn.Core.Document.{LifecycleStatus, VerificationResult}
use credaryn.Services.Status.{StatusFreshness}
use credaryn.Base.Text.{codes, Text}
use credaryn.Base.{
  [], if◌then◌else◌, Bool-cases, refl, false, ◌∷◌, ok, inr, inl, true, err, none, ◌⊎◌, Result-cases,
  Option-cases, Result, Bool, ◌++◌, Option, ◌≡◌, some,
}

pub record StatusQuery : Type 0 where
  pub issuer_id : Text
  pub key_id : Option Text
  pub document_id : Text
  pub status_url : Option Text

pub record StatusAnswer : Type 0 where
  pub status : LifecycleStatus
  pub freshness : StatusFreshness

-- A rejected promise is an error, an answer that is undefined is none.
abbrev pub StatusResolver : Type 0
StatusResolver = StatusQuery → Result (Unit {0}) (Option StatusAnswer)

abbrev status_name : LifecycleStatus → Text
status_name LifecycleStatus.active = codes "ACTIVE"
status_name LifecycleStatus.revoked = codes "REVOKED"
status_name LifecycleStatus.cancelled = codes "CANCELLED"
status_name LifecycleStatus.superseded = codes "SUPERSEDED"
status_name LifecycleStatus.expired = codes "EXPIRED"
status_name LifecycleStatus.unchecked = codes "UNCHECKED"

abbrev freshness_name : StatusFreshness → Text
freshness_name StatusFreshness.fresh = codes "FRESH"
freshness_name StatusFreshness.stale = codes "STALE"
freshness_name StatusFreshness.unavailable = codes "UNAVAILABLE"

abbrev pub is_unavailable : StatusFreshness → Bool
is_unavailable StatusFreshness.unavailable = true
is_unavailable _ = false

-- The last return.
unfoldable pub with_status : VerificationResult → StatusAnswer → VerificationResult
with_status result answer = record result {
  lifecycle_status = answer.status;
  evidence =
      result.evidence
      ++ (record {
        code = codes "STATUS_" ++ status_name answer.status;
        message =
            codes "Status service reports "
            ++ (status_name answer.status
                ++ (codes " with " ++ (freshness_name answer.freshness ++ codes " freshness")));
      })
        ∷ [];
}

unfoldable pub use_answer :
    VerificationResult → Result (Unit {0}) (Option StatusAnswer) → VerificationResult
use_answer result (err e) = result
use_answer result (ok none) = result
use_answer result (ok (some answer)) =
    if is_unavailable answer.freshness then result else with_status result answer

unfoldable pub ask :
    VerificationResult → StatusResolver → Option Text → Option Text → VerificationResult
ask result resolver (some issuer) (some document) = use_answer result (
    resolver (record {
      issuer_id = issuer;
      key_id = result.key_id;
      document_id = document;
      status_url = result.status_url;
    }))
ask result resolver _ _ = result

unfoldable pub apply_status_resolver :
    VerificationResult → Option StatusResolver → VerificationResult
apply_status_resolver result none = result
apply_status_resolver result (some resolver) =
    ask result resolver result.issuer_id result.document_id

-- The parts of a result that a status has no say in.
abbrev pub SameJudgement : VerificationResult → VerificationResult → Type 0
SameJudgement a b =
    (a.verdict ≡ b.verdict)
    × (a.cryptographic_validity ≡ b.cryptographic_validity)
    × (a.trust_decision ≡ b.trust_decision)
    × (a.signed_claims ≡ b.signed_claims)
    × (a.artifact_integrity ≡ b.artifact_integrity)

-- The status comes from an answer that is available, or is the one of the result before.
abbrev pub IsReported : StatusResolver → VerificationResult → VerificationResult → Type 0
IsReported resolver before after =
    (before ≡ after)
    ⊎ ((query : StatusQuery) × (answer : StatusAnswer) × (before.issuer_id ≡ some query.issuer_id)
        × (before.document_id ≡ some query.document_id)
        × (resolver query ≡ ok (some answer))
        × (is_unavailable answer.freshness ≡ false)
        × (after.lifecycle_status ≡ answer.status))

use_answer-SameJudgement :
    (result : VerificationResult) (r : Result (Unit {0}) (Option StatusAnswer))
    → SameJudgement result (use_answer result r)
unfolding use_answer with_status
use_answer-SameJudgement result (err e) = (refl, refl, refl, refl, refl)
use_answer-SameJudgement result (ok none) = (refl, refl, refl, refl, refl)
use_answer-SameJudgement result (ok (some answer)) =
    elim (Bool-cases (is_unavailable answer.freshness)) [
      | inl a ↦ rw a (refl, refl, refl, refl, refl)
      | inr a ↦ rw a (refl, refl, refl, refl, refl)
    ]

use_answer-IsReported :
    (result : VerificationResult) (resolver : StatusResolver) (query : StatusQuery)
    → result.issuer_id ≡ some query.issuer_id
    → result.document_id ≡ some query.document_id
    → IsReported resolver result (use_answer result (resolver query))
unfolding use_answer with_status
use_answer-IsReported result resolver query i d = elim (Result-cases (resolver query)) [
  | inr (e, h) ↦ rw h (inl refl)
  | inl (o, h) ↦ elim (Option-cases o) [
    | inl n ↦ rw (h, n) (inl refl)
    | inr (answer, s) ↦ elim (Bool-cases (is_unavailable answer.freshness)) [
      | inl a ↦ rw (h, s, a) (inl refl)
      | inr a ↦ inr (query, answer, i, d, rw (h, s) refl, a, rw (h, s, a) refl)
    ]
  ]
]

-- The lookup of a status changes neither the verdict nor the validity, the trust decision, the
-- claims or the integrity, and the result is the one before or carries the status of an available
-- answer to a query for the issuer and the document of the result.
pub apply_status_resolver-IsReported :
    (result : VerificationResult) (resolver : StatusResolver)
    → SameJudgement result (apply_status_resolver result (some resolver))
      × IsReported resolver result (apply_status_resolver result (some resolver))
unfolding apply_status_resolver ask
apply_status_resolver-IsReported result resolver = elim (Option-cases result.issuer_id) [
  | inl n ↦ rw (apply_status_resolver, n) ((refl, refl, refl, refl, refl), inl refl)
  | inr (issuer, i) ↦ elim (Option-cases result.document_id) [
    | inl n ↦ rw (apply_status_resolver, i, n) ((refl, refl, refl, refl, refl), inl refl)
    | inr (document, d) ↦
        let query : StatusQuery = record {
          issuer_id = issuer;
          key_id = result.key_id;
          document_id = document;
          status_url = result.status_url;
        } in
        let same : ask result resolver result.issuer_id result.document_id
            ≡ use_answer result (resolver query) =
          rw (i, d) refl in
        rw same (
          use_answer-SameJudgement result (resolver query),
          use_answer-IsReported result resolver query i d,
        )
  ]
]
