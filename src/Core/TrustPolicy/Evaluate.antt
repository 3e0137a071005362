-- ===== src/Core/TrustPolicy/Evaluate.antt =====
-- trust-policy.ts: TrustPolicy.evaluate and resolve, and runs of them. A call of `evaluate` writes
-- the state once, at its end, so overlapping calls act like calls in the order of their ends.
use credaryn.Base.{is_some, true, false}
use credaryn.Core.TrustPolicy.{
  is_allowed_did_web_domain, is_fresh, is_https_url, is_current, remember, anchors, untrusted,
  matches_key, is_did_web, TrustResolver, not_applicable, TrustMaterialSource, TrustPolicy,
  TrustPolicyInput, TrustPolicyResult, Remembered, RemoteTrustMaterial, Freshness,
  enterprise_anchor, x509_chain, did_web_domain, unconfigured, fresh, stale, unavailable,
}
use credaryn.Core.Document.{TrustDecision}
use credaryn.Core.Descriptor.{Url}
use credaryn.Core.Signer.{SignerKeyInfo}
use credaryn.Base.{
  int_sub, is_positive, not, ok, [], none, ◌&&◌, err, ◌∷◌, some, ◌||◌, if◌then◌else◌, Result, find,
  List, ℤ, Option, Bool,
}
use credaryn.Base.Text.{codes, Text}

abbrev pub source_of : Bool → Bool → TrustMaterialSource
source_of true b = x509_chain
source_of false true = did_web_domain
source_of false false = unconfigured

module _ (parse_date : Text → Option ℤ) where
  -- `Number.isFinite` fails where `Date.parse` gives NaN.
  unfoldable pub freshness_of : Option ℤ → ℤ → Text → Freshness
  freshness_of none now fetched_at = fresh
  freshness_of (some max_age) now fetched_at = elim (parse_date fetched_at) [
    | none ↦ unavailable
    | some fetched ↦ if is_positive (int_sub (int_sub now fetched) max_age) then stale else fresh
  ]

module _ (parse_url : Text → Option Url) where
  -- `validAnchor`
  unfoldable pub has_valid_anchor : TrustPolicy → RemoteTrustMaterial → Bool
  has_valid_anchor policy remote =
      is_some (find (anchors remote.key) policy.x509_anchors) && is_https_url parse_url remote.url

  -- `validDidWeb`
  unfoldable pub is_valid_did_web : TrustPolicy → RemoteTrustMaterial → Bool
  is_valid_did_web policy remote =
      is_did_web remote.source
      && is_https_url parse_url remote.url
      && is_allowed_did_web_domain parse_url remote.url policy.allowed_did_web_domains

  -- `trusted`
  unfoldable pub satisfies_policy : TrustPolicy → RemoteTrustMaterial → Freshness → Bool
  satisfies_policy policy remote freshness =
      has_valid_anchor policy remote || is_valid_did_web policy remote && is_current freshness

  -- The decision on material that the resolver gave for the key that was asked for.
  unfoldable pub decide_remote : TrustPolicy → RemoteTrustMaterial → Freshness → TrustPolicyResult
  decide_remote policy remote freshness =
      let trusted = satisfies_policy policy remote freshness in
      record {
        trust_decision =
            if trusted && not (policy.require_freshness && not (is_fresh freshness))
            then TrustDecision.trusted
            else TrustDecision.untrusted;
        trust_source = source_of (has_valid_anchor policy remote) (is_valid_did_web policy remote);
        freshness = freshness;
        key = some remote.key;
        evidence =
            if trusted
            then codes "The key satisfied the configured trust policy"
            else codes "The key was resolved but did not satisfy the configured trust policy";
      }

module _ (parse_url : Text → Option Url) (parse_date : Text → Option ℤ) where
  unfoldable pub judge_answer :
      TrustPolicy
      → ℤ
      → TrustPolicyInput
      → Remembered
      → Result (Unit {0}) (Option RemoteTrustMaterial)
      → TrustPolicyResult × Remembered
  judge_answer policy now input remembered (err _) =
      untrusted input remembered (codes "Trust resolver is unavailable") unavailable
  judge_answer policy now input remembered (ok none) =
      untrusted input remembered (codes "Trust resolver did not return the requested key")
        not_applicable
  judge_answer policy now input remembered (ok (some remote)) =
      if matches_key input remote.key
      then remember input remote.key
          (decide_remote parse_url policy remote
            (freshness_of parse_date policy.max_cache_age_ms now remote.fetched_at))
          remembered
      else untrusted input remembered (codes "Trust resolver did not return the requested key")
          not_applicable

  unfoldable pub ask_resolver :
      TrustPolicy
      → ℤ
      → TrustPolicyInput
      → Remembered
      → Option TrustResolver
      → TrustPolicyResult × Remembered
  ask_resolver policy now input remembered none =
      untrusted input remembered (codes "No configured or bounded trust resolver returned this key")
        not_applicable
  ask_resolver policy now input remembered (some resolver) =
      judge_answer policy now input remembered (resolver input.issuer_id input.key_id)

  abbrev pub configured_decision : SignerKeyInfo → TrustPolicyResult
  configured_decision key = record {
    trust_decision = TrustDecision.trusted;
    trust_source = enterprise_anchor;
    freshness = not_applicable;
    key = some key;
    evidence = codes "The key is explicitly configured in the local trust policy";
  }

  unfoldable pub evaluate :
      TrustPolicy → ℤ → TrustPolicyInput → Remembered → TrustPolicyResult × Remembered
  evaluate policy now input remembered = elim (find (matches_key input) policy.configured_keys) [
    | some configured ↦ remember input configured (configured_decision configured) remembered
    | none ↦ ask_resolver policy now input remembered policy.resolver
  ]

  unfoldable pub resolve :
      TrustPolicy → ℤ → Text → Text → Remembered → Option SignerKeyInfo × Remembered
  resolve policy now key_id issuer_id remembered =
      let (decision, after) =
        evaluate policy now (record { issuer_id = issuer_id; key_id = key_id }) remembered in
      (decision.key, after)

  -- The state after a run of calls, each at its time.
  unfoldable pub evaluate_all : TrustPolicy → List (ℤ × TrustPolicyInput) → Remembered → Remembered
  evaluate_all policy [] remembered = remembered
  evaluate_all policy ((now, input) ∷ calls) remembered =
      evaluate_all policy calls (evaluate policy now input remembered).1
