-- ===== src/Examples/Policy.antt =====
-- Runs of the trust policy on a did:web key.
use credaryn.Core.TrustPolicy.{
  anchors, allows, is_allowed_domain, is_allowed_did_web_domain, is_https_url, remember,
  matches_key, is_trusted_decision, did_web, TrustPolicy, TrustPolicyInput, RemoteTrustMaterial,
}
use credaryn.Core.TrustPolicy.Evaluate.{
  freshness_of, is_valid_did_web, has_valid_anchor, satisfies_policy, decide_remote, judge_answer,
  ask_resolver, evaluate, evaluate_all,
}
use credaryn.Core.TrustPolicy.Trusted.{evaluate-IsJustified, IsJustified}
use credaryn.Core.TrustPolicy.Remembers.{evaluate-is_trusted, trust_after}
use mathlib.Core.List.{Mem}
use credaryn.Core.Document.{TrustDecision}
use credaryn.Core.TrustPolicy.Sound.{evaluate_all-IsSound, IsSound}
use credaryn.Base.Text.{ends_with, trim, to_lower_case, list_eq, starts_with, Text, codes}
use credaryn.Core.Signer.{es256, SignerKeyInfo}
use credaryn.Base.{
  int_sub, refl, ap, List, none, if◌then◌else◌, true, ◌≡◌, ◌∷◌, ℤ, ok, pos, Option, some, [],
}
use credaryn.Core.Descriptor.{Url}
use credaryn.Core.TrustPolicy.{input_of, is_trusted}
use credaryn.Base.Maps.{remove, put}

abbrev issuer : Text
issuer = codes "did:web:Acme.test"

abbrev key : SignerKeyInfo
key = record {
  issuer_id = issuer;
  key_id = codes "k1";
  algorithm = es256;
  public_key = 4 ∷ 7 ∷ [];
  certificate_chain = none;
  certificate_fingerprint = none;
}

abbrev input : TrustPolicyInput
input = record { issuer_id = issuer; key_id = codes "k1" }

abbrev remote : RemoteTrustMaterial
remote = record {
  key = key;
  url = codes "https://acme.test/.well-known/did.json";
  fetched_at = codes "then";
  source = did_web;
}

abbrev parse_url : Text → Option Url
parse_url url =
    if starts_with url (codes "https://acme.test")
    then some (record {
      protocol = codes "https:";
      hostname = codes "acme.test";
      username = [];
      password = [];
      port = [];
      search = [];
      hash = [];
      href = url;
    })
    else none

abbrev parse_date : Text → Option ℤ
parse_date date = some (pos 1000)

abbrev policy : TrustPolicy
policy = record {
  configured_keys = [];
  x509_anchors = [];
  resolver = some (λ issuer_id key_id. ok (some remote));
  allowed_did_web_domains = codes " TEST " ∷ [];
  max_cache_age_ms = some (pos 500);
  require_freshness = true;
}

-- In time, and a millisecond too late.
trusted_in_time :
    (evaluate parse_url parse_date policy (pos 1500) input []).0.trust_decision
    ≡ TrustDecision.trusted
unfolding evaluate ask_resolver judge_answer matches_key list_eq remember decide_remote
    satisfies_policy has_valid_anchor is_valid_did_web is_https_url starts_with
    is_allowed_did_web_domain is_allowed_domain allows to_lower_case trim ends_with freshness_of
    int_sub put remove anchors
trusted_in_time = refl

untrusted_when_late :
    (evaluate parse_url parse_date policy (pos 1501) input []).0.trust_decision
    ≡ TrustDecision.untrusted
unfolding evaluate ask_resolver judge_answer matches_key list_eq remember decide_remote
    satisfies_policy has_valid_anchor is_valid_did_web is_https_url starts_with
    is_allowed_did_web_domain is_allowed_domain allows to_lower_case trim ends_with freshness_of
    int_sub put remove anchors
untrusted_when_late = refl

evaluate-IsJustified_example :
    (k : SignerKeyInfo) × ((evaluate parse_url parse_date policy (pos 1500) input []).0.key
      ≡ some k)
    × IsJustified parse_url parse_date policy (pos 1500) input k
evaluate-IsJustified_example =
    evaluate-IsJustified parse_url parse_date policy (pos 1500) input []
      (ap is_trusted_decision trusted_in_time)

evaluate-is_trusted_example :
    is_trusted policy (evaluate parse_url parse_date policy (pos 1500) (input_of key) []).1 key
    ≡ trust_after policy key
        (evaluate parse_url parse_date policy (pos 1500) (input_of key) []).0
        (evaluate parse_url parse_date policy (pos 1500) (input_of key) []).0.key
evaluate-is_trusted_example = evaluate-is_trusted parse_url parse_date policy (pos 1500) key []

abbrev calls : List (ℤ × TrustPolicyInput)
calls = (pos 1501, input) ∷ (pos 1500, input) ∷ []

evaluate_all-IsSound_example :
    IsSound parse_url parse_date policy
      (λ call. Mem call calls)
      (evaluate_all parse_url parse_date policy calls [])
evaluate_all-IsSound_example = evaluate_all-IsSound parse_url parse_date policy calls
