-- ===== src/Core/TrustPolicy/Remembers.antt =====
-- trust-policy.ts: what isTrusted says once evaluate has ended.
use credaryn.Core.TrustPolicy.Evaluate.{decide_remote, judge_answer, ask_resolver, evaluate}
use credaryn.Base.Maps.{remove, lookup-put, lookup-remove}
use credaryn.Core.TrustPolicy.{
  input_of, RemoteTrustMaterial, anchors, TrustResolver, reference, matches_key,
  is_trusted_decision, TrustPolicyResult, same_key, Remembered, TrustPolicy, is_trusted, remember,
  untrusted,
}
use credaryn.Core.Signer.{SignerKeyInfo}
use credaryn.Base.Text.{Text}
use credaryn.Base.{
  [], ok, Bool-cases, err, ◌∷◌, false, Result, inr, refl, none, inl, any, Option-cases, some, find,
  ℤ, Bool, ◌≡◌, List, Option,
}
use credaryn.Core.Descriptor.{Url}

-- What a key is worth when an evaluation for it has ended with a result that has a key, or none.
abbrev pub trust_after :
    TrustPolicy → SignerKeyInfo → TrustPolicyResult → Option SignerKeyInfo → Bool
trust_after policy key result (some found) = is_trusted_decision result.trust_decision
trust_after policy key result none = any (anchors key) policy.x509_anchors

module _ (policy : TrustPolicy) (key : SignerKeyInfo) where
  remember-is_trusted :
      (found : SignerKeyInfo) (decision : TrustPolicyResult) (remembered : Remembered)
      → is_trusted policy (remember (input_of key) found decision remembered).1 key
        ≡ is_trusted_decision decision.trust_decision
  unfolding is_trusted remember
  remember-is_trusted found decision remembered =
      rw
        (
          is_trusted,
          lookup-put (reference key.issuer_id key.key_id)
              (record { key = found; decision = decision }) remembered,
        )
        refl

  pub no_configured :
      (keys : List SignerKeyInfo)
      → find (matches_key (input_of key)) keys ≡ none
      → any (λ configured. same_key configured key) keys ≡ false
  unfolding same_key
  no_configured [] h = refl
  no_configured (k ∷ keys) h = elim (Bool-cases (matches_key (input_of key) k)) [
    | inl found ↦ let bad : some k ≡ none = rw found at h in cc
    | inr other ↦ rw (same_key, other) (no_configured keys (rw other at h))
  ]

  removed-is_trusted :
      (remembered : Remembered)
      → find (matches_key (input_of key)) policy.configured_keys ≡ none
      → is_trusted policy (remove (reference key.issuer_id key.key_id) remembered) key
        ≡ any (anchors key) policy.x509_anchors
  unfolding is_trusted
  removed-is_trusted remembered h =
      rw
        (
          is_trusted,
          lookup-remove (reference key.issuer_id key.key_id) remembered,
          no_configured policy.configured_keys h,
        )
        refl

module _ (parse_url : Text → Option Url) (parse_date : Text → Option ℤ) (policy : TrustPolicy)
    (now : ℤ) (key : SignerKeyInfo) where
  abbrev Agrees : TrustPolicyResult × Remembered → Type 0
  Agrees (result, after) = is_trusted policy after key ≡ trust_after policy key result result.key

  judge_answer-Agrees :
      (remembered : Remembered) (answer : Result (Unit {0}) (Option RemoteTrustMaterial))
      → find (matches_key (input_of key)) policy.configured_keys ≡ none
      → Agrees (judge_answer parse_url parse_date policy now (input_of key) remembered answer)
  unfolding judge_answer untrusted remember decide_remote
  judge_answer-Agrees remembered (err e) n = removed-is_trusted policy key remembered n
  judge_answer-Agrees remembered (ok none) n = removed-is_trusted policy key remembered n
  judge_answer-Agrees remembered (ok (some remote)) n =
      elim (Bool-cases (matches_key (input_of key) remote.key)) [
        | inl same ↦ rw same (remember-is_trusted policy key remote.key _ remembered)
        | inr other ↦ rw other (removed-is_trusted policy key remembered n)
      ]

  ask_resolver-Agrees :
      (remembered : Remembered) (resolver : Option TrustResolver)
      → find (matches_key (input_of key)) policy.configured_keys ≡ none
      → Agrees (ask_resolver parse_url parse_date policy now (input_of key) remembered resolver)
  unfolding ask_resolver untrusted
  ask_resolver-Agrees remembered none n = removed-is_trusted policy key remembered n
  ask_resolver-Agrees remembered (some resolver) n =
      judge_answer-Agrees remembered (resolver key.issuer_id key.key_id) n

  -- Once a key has been evaluated by its issuer and its name, isTrusted says of it what the
  -- decision was, if the result has a key, and otherwise whether an anchor names its issuer and
  -- its fingerprint.
  pub evaluate-is_trusted :
      (remembered : Remembered)
      → is_trusted policy (evaluate parse_url parse_date policy now (input_of key) remembered).1 key
        ≡ trust_after policy key
            (evaluate parse_url parse_date policy now (input_of key) remembered).0
            (evaluate parse_url parse_date policy now (input_of key) remembered).0.key
  unfolding evaluate remember
  evaluate-is_trusted remembered =
      elim (Option-cases (find (matches_key (input_of key)) policy.configured_keys)) [
        | inl n ↦ rw (evaluate, n) (ask_resolver-Agrees remembered policy.resolver n)
        | inr (found, f) ↦ rw (evaluate, f) (remember-is_trusted policy key found _ remembered)
      ]
