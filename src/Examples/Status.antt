-- ===== src/Examples/Status.antt =====
-- services/status and packages/verifier/src/status.ts: a document that is activated and revoked.
use credaryn.Base.Maps.{lookup, put}
use credaryn.Core.Document.{
  CryptographicValidity, TrustDecision, LifecycleStatus, SecurityMode, ArtifactIntegrity,
  VerificationResult, Verdict,
}
use credaryn.Services.Status.{
  status_reference_key, append_record, current, transition, serve, Request, StatusRecord, serve_all,
  StatusReference, Repository, history, StatusState, StatusFreshness,
}
use credaryn.Base.Text.{trim, is_blank, list_eq, codes, Text}
use credaryn.Base.{refl, ◌++◌, true, ◌∷◌, none, ◌≡◌, [], ok, List, some}
use credaryn.Services.Status.Lifecycle.{serve_all-Extends, serve_all-IsConsistent, IsConsistent}
use credaryn.Verifier.Lookup.{
  with_status, use_answer, apply_status_resolver-IsReported, ask, IsReported, StatusResolver,
  apply_status_resolver, SameJudgement,
}

abbrev document : StatusReference
document = record { issuer_id = codes "acme"; document_id = codes "d" }

abbrev request : StatusState → Text → Request
request next time = record {
  available = true;
  now = time;
  input = record { reference = document; key_id = none; status = next; reason = codes "r" };
}

-- The third call is refused.
abbrev requests : List Request
requests =
    request StatusState.active (codes "1")
    ∷ request StatusState.revoked (codes "2")
    ∷ request StatusState.active (codes "3")
    ∷ []

abbrev empty : Repository
empty = record { current_records = []; history_records = [] }

empty-IsConsistent : IsConsistent empty
unfolding lookup
empty-IsConsistent key = tt

abbrev entry_of : StatusState → Text → StatusRecord
entry_of s time = record {
  reference = document;
  key_id = none;
  status = s;
  reason = codes "r";
  updated_at = time;
}

history_lem :
    history document (serve_all requests empty)
    ≡ entry_of StatusState.active (codes "1") ∷ entry_of StatusState.revoked (codes "2") ∷ []
unfolding history serve_all serve transition current append_record lookup put status_reference_key
    list_eq is_blank trim
history_lem = refl

serve_all-IsConsistent_example : IsConsistent (serve_all requests empty)
serve_all-IsConsistent_example = serve_all-IsConsistent requests empty empty-IsConsistent

serve_all-Extends_example :
    (added : List StatusRecord) × (history document (serve_all requests empty)
      ≡ history document empty ++ added)
serve_all-Extends_example = serve_all-Extends requests empty document

abbrev before : VerificationResult
before = record {
  verdict = Verdict.valid_trusted;
  cryptographic_validity = CryptographicValidity.valid;
  trust_decision = TrustDecision.trusted;
  lifecycle_status = LifecycleStatus.unchecked;
  issuer_id = some (codes "acme");
  key_id = none;
  trust_source = none;
  security_mode = SecurityMode.paper_claims_only;
  artifact_integrity = some ArtifactIntegrity.not_applicable;
  key_lifecycle_state = none;
  document_id = some (codes "d");
  status_url = none;
  signed_claims = none;
  evidence = [];
}

abbrev resolver : StatusResolver
resolver query =
    ok (some (record { status = LifecycleStatus.revoked; freshness = StatusFreshness.fresh }))

after_lem :
    (apply_status_resolver before (some resolver)).lifecycle_status ≡ LifecycleStatus.revoked
unfolding apply_status_resolver ask use_answer with_status
after_lem = refl

apply_status_resolver-IsReported_example :
    SameJudgement before (apply_status_resolver before (some resolver))
    × IsReported resolver before (apply_status_resolver before (some resolver))
apply_status_resolver-IsReported_example = apply_status_resolver-IsReported before resolver
