-- ===== src/Core/TrustPolicy/Trusted.antt =====
-- trust-policy.ts: what TrustPolicy.evaluate decides, and what isTrusted says after it.
use credaryn.Core.TrustPolicy.Evaluate.{
  ask_resolver, judge_answer, satisfies_policy, freshness_of, decide_remote, evaluate,
}
use credaryn.Core.TrustPolicy.Justified.{
  freshness_of-IsRecent, satisfies_policy-IsVouched, IsVouched, IsConfigured,
}
use credaryn.Core.Document.{TrustDecision}
use credaryn.Base.Text.{list_eq→eq, list_eq, Text}
use credaryn.Base.{
  err, none, find-Mem, Result, find, refl, Option-cases, false, not, ◌&&◌, if◌then◌else◌, Bool, inl,
  inr, Bool-cases, true_and, ok, some, true, ◌≡◌, ◌⊎◌, ℤ, Option,
}
use credaryn.Core.Descriptor.{Url}
use credaryn.Core.TrustPolicy.{
  not_applicable, unavailable, stale, Remembered, fresh, remember, is_current, untrusted, Freshness,
  is_fresh, TrustResolver, RemoteTrustMaterial, is_trusted_decision, matches_key, TrustPolicyResult,
  TrustPolicyInput, TrustPolicy,
}
use credaryn.Core.Signer.{SignerKeyInfo}

-- A configured key, or one that the resolver of the policy gave and that is vouched for.
abbrev pub IsJustified :
    (Text → Option Url)
    → (Text → Option ℤ)
    → TrustPolicy
    → ℤ
    → TrustPolicyInput
    → SignerKeyInfo
    → Type 0
IsJustified parse_url parse_date policy now input key =
    IsConfigured policy input key
    ⊎ ((resolver : TrustResolver) × (remote : RemoteTrustMaterial) × (policy.resolver
          ≡ some resolver)
        × (resolver input.issuer_id input.key_id ≡ ok (some remote))
        × (remote.key ≡ key)
        × IsVouched parse_url parse_date policy now input remote)

decision-eq-trusted :
    (satisfied required fresh_enough : Bool)
    → is_trusted_decision (
        if satisfied && not (required && not fresh_enough)
        then TrustDecision.trusted
        else TrustDecision.untrusted)
      ≡ true
    → (satisfied ≡ true) × (required ≡ true → fresh_enough ≡ true)
decision-eq-trusted true true true h = (refl, λ e. refl)
decision-eq-trusted true true false h = cc
decision-eq-trusted true false b h = (refl, λ e. cc)
decision-eq-trusted false a b h = cc

fresh-is_current : (freshness : Freshness) → is_fresh freshness ≡ true → is_current freshness ≡ true
fresh-is_current fresh h = refl
fresh-is_current stale h = h
fresh-is_current unavailable h = h
fresh-is_current not_applicable h = refl

module _ (parse_url : Text → Option Url) (parse_date : Text → Option ℤ) (policy : TrustPolicy)
    (now : ℤ) (input : TrustPolicyInput) where
  abbrev pub IsDecided : TrustPolicyResult → Type 0
  IsDecided result =
      is_trusted_decision result.trust_decision ≡ true
      → (key : SignerKeyInfo) × (result.key ≡ some key)
        × IsJustified parse_url parse_date policy now input key

  decide_remote-IsVouched :
      (remote : RemoteTrustMaterial)
      → matches_key input remote.key ≡ true
      → is_trusted_decision
          (decide_remote parse_url policy remote
            (freshness_of parse_date policy.max_cache_age_ms now remote.fetched_at)).trust_decision
        ≡ true
      → IsVouched parse_url parse_date policy now input remote
  unfolding decide_remote matches_key
  decide_remote-IsVouched remote m h =
      let freshness = freshness_of parse_date policy.max_cache_age_ms now remote.fetched_at in
      let (issuer, name) =
        true_and (list_eq remote.key.issuer_id input.issuer_id)
          (list_eq remote.key.key_id input.key_id) m in
      let (satisfied, if_required) =
        decision-eq-trusted (satisfies_policy parse_url policy remote freshness)
          policy.require_freshness (is_fresh freshness) h in
      let (url, p, protocol, anchored) =
        satisfies_policy-IsVouched parse_url parse_date policy now remote satisfied in
      (
        url,
        p,
        protocol,
        list_eq→eq remote.key.issuer_id input.issuer_id issuer,
        list_eq→eq remote.key.key_id input.key_id name,
        anchored,
        λ required.
            freshness_of-IsRecent parse_date policy now remote
              (fresh-is_current freshness (if_required required)),
      )

  judge_answer-IsDecided :
      (remembered : Remembered) (resolver : TrustResolver)
      (answer : Result (Unit {0}) (Option RemoteTrustMaterial))
      → policy.resolver ≡ some resolver
      → resolver input.issuer_id input.key_id ≡ answer
      → IsDecided (judge_answer parse_url parse_date policy now input remembered answer).0
  unfolding judge_answer untrusted remember decide_remote
  judge_answer-IsDecided remembered resolver (err e) r a h = cc
  judge_answer-IsDecided remembered resolver (ok none) r a h = cc
  judge_answer-IsDecided remembered resolver (ok (some remote)) r a h =
      elim (Bool-cases (matches_key input remote.key)) [
        | inr other ↦ let bad : false ≡ true = rw other at h in cc
        | inl same ↦ (
          remote.key,
          rw same refl,
          inr (resolver, remote, r, a, refl, decide_remote-IsVouched remote same (rw same at h)),
        )
      ]

  ask_resolver-IsDecided :
      (remembered : Remembered) (resolver : Option TrustResolver)
      → policy.resolver ≡ resolver
      → IsDecided (ask_resolver parse_url parse_date policy now input remembered resolver).0
  unfolding ask_resolver untrusted
  ask_resolver-IsDecided remembered none r h = cc
  ask_resolver-IsDecided remembered (some resolver) r h =
      judge_answer-IsDecided remembered resolver _ r refl h

  -- If the policy decides that a key is trusted, then its result carries a key that is configured
  -- for the issuer and the key name that were asked for, or that the resolver gave for them from
  -- an HTTPS URL, anchored by issuer and fingerprint, or of did:web origin on a listed host and no
  -- older than the limit, which holds of it too where freshness is required.
  pub evaluate-IsJustified :
      (remembered : Remembered)
      → is_trusted_decision
          (evaluate parse_url parse_date policy now input remembered).0.trust_decision
        ≡ true
      → (key : SignerKeyInfo) × ((evaluate parse_url parse_date policy now input remembered).0.key
          ≡ some key)
        × IsJustified parse_url parse_date policy now input key
  unfolding evaluate remember matches_key
  evaluate-IsJustified remembered h =
      elim (Option-cases (find (matches_key input) policy.configured_keys)) [
        | inl n ↦
            rw (evaluate, n)
              (ask_resolver-IsDecided remembered policy.resolver refl (rw (evaluate, n) at h))
        | inr (key, f) ↦
            let (member, same) = find-Mem (matches_key input) policy.configured_keys key f in
            let (issuer, name) =
              true_and (list_eq key.issuer_id input.issuer_id) (list_eq key.key_id input.key_id)
                same in
            (
              key,
              rw (evaluate, f) refl,
              inl (
                member,
                list_eq→eq key.issuer_id input.issuer_id issuer,
                list_eq→eq key.key_id input.key_id name,
              ),
            )
      ]
