-- ===== src/Examples/Verifier.antt =====
-- packages/verifier: a seal is submitted as text, and its status is looked up.
use credaryn.Services.Status.{StatusFreshness}
use credaryn.Base.{refl, ok, err, some, ◌≡◌, ◌∷◌}
use credaryn.Examples.Seal.{
  check_signature, date_parses, descriptor, message_of, parse_url, result, signer, store, transport,
}
use credaryn.Examples.Node.{engine}
use credaryn.Verifier.Facade.{
  verify_paper_text, verify_text_bytes, verify_kind, with_status_of, VerifierDependencies,
  Submission, verify_input,
}
use credaryn.Paper.Qr.{QrLibraries}
use credaryn.Verifier.Lookup.{use_answer, ask, apply_status_resolver, with_status, StatusAnswer}
use credaryn.Core.Document.{Verdict, LifecycleStatus, VerificationResult}
use credaryn.Paper.Cbor.Decode.{decoder}
use credaryn.Paper.Seal.Verify.{checking}
use credaryn.Verifier.Facade.Accepted.{verify_input-IsTrusted, IsTrusted}
use credaryn.Core.Descriptor.Validate.{validator}
use credaryn.Base.Text.{to_lower_case, codes}
use credaryn.Verifier.Input.{
  read_text, confirm, detect_magic, content_type_kind, is_text_type, maximum_of_type,
  detect_requested, before_semicolon, normalize_content_type, detect_input,
}
use credaryn.Paper.Seal.{create_paper_seal_payload}
use credaryn.Node.Seal.{verify_seal}
use credaryn.Verifier.Normalize.{normalize_verification_result}
use credaryn.Node.{lookup_key_lifecycle_state}
use credaryn.Core.Claims.{insert_claim, sort_claims}

abbrev libraries : QrLibraries
libraries = record {
  Source = Unit;
  read_png = λ bytes. err (codes "no PNG");
  luminance = λ pixels width height. ok tt;
  decode_pure_hybrid = λ source. err (codes "no code");
  decode_pure_global = λ source. err (codes "no code");
  decode_hybrid = λ source. err (codes "no code");
}

abbrev fresh_answer : StatusAnswer
fresh_answer = record { status = LifecycleStatus.active; freshness = StatusFreshness.fresh }

abbrev dependencies : VerifierDependencies
dependencies = record {
  pdf_engine = engine;
  paper_signer = signer;
  trust_store = store;
  status_resolver = some (λ query. ok (some fresh_answer));
}

abbrev submission : Submission
submission = record {
  content = 0x20 ∷ transport;
  content_type = some (codes "text/plain; charset=utf-8");
  expected_descriptor = some descriptor;
}

abbrev reported : VerificationResult
reported = with_status result fresh_answer

verify_run :
    verify_input date_parses parse_url check_signature message_of libraries dependencies submission
    ≡ ok reported
unfolding decoder validator checking verify_input detect_input normalize_content_type to_lower_case
    before_semicolon detect_requested maximum_of_type is_text_type content_type_kind detect_magic
    confirm read_text with_status_of verify_kind verify_text_bytes verify_paper_text verify_seal
    with_status apply_status_resolver ask normalize_verification_result lookup_key_lifecycle_state
    use_answer create_paper_seal_payload sort_claims insert_claim
verify_run = refl

reported_lem : reported.verdict ≡ Verdict.valid_trusted
unfolding checking with_status create_paper_seal_payload
reported_lem = refl

verify_input-IsTrusted_example :
    IsTrusted date_parses parse_url check_signature message_of libraries dependencies submission
      reported
verify_input-IsTrusted_example =
    verify_input-IsTrusted date_parses parse_url check_signature message_of libraries dependencies
      submission reported verify_run reported_lem
