-- ===== src/Core/DidWeb/Policy.antt =====
-- trust-policy.ts: a trust policy whose resolver is the one for did:web.
use credaryn.Core.TrustPolicy.Trusted.{evaluate-IsJustified}
use credaryn.Core.TrustPolicy.Justified.{IsConfigured, IsVouched}
use credaryn.Core.DidWeb.Fetched.{create_did_web_resolver-IsResolved, IsResolved}
use credaryn.Core.TrustPolicy.Evaluate.{evaluate}
use credaryn.Core.DidWeb.Resolver.{create_did_web_resolver, DidWebResolverOptions, Platform}
use credaryn.Base.Text.{Text}
use credaryn.Base.{ap, ◌∙◌, sym, some_injective, inr, inl, ◌⊎◌, true, some, ◌≡◌, ℤ, Option}
use credaryn.Core.TrustPolicy.{
  RemoteTrustMaterial, is_trusted_decision, Remembered, TrustPolicyInput, TrustPolicy,
}
use credaryn.Core.Signer.{SignerKeyInfo}

-- If a policy whose resolver is the one for did:web decides that a key is trusted, then the key is
-- configured, or it has passed all checks of the resolver and those of the policy.
pub evaluate-IsResolved :
    (platform : Platform) (options : DidWebResolverOptions) (date : Text)
    (parse_date : Text → Option ℤ) (policy : TrustPolicy) (now : ℤ) (input : TrustPolicyInput)
    (remembered : Remembered)
    → policy.resolver ≡ some (create_did_web_resolver platform options date)
    → is_trusted_decision
        (evaluate platform.parse_url parse_date policy now input remembered).0.trust_decision
      ≡ true
    → (key : SignerKeyInfo) × ((evaluate platform.parse_url parse_date policy now input
          remembered).0.key
        ≡ some key)
      × (IsConfigured policy input key
          ⊎ ((remote : RemoteTrustMaterial) × (remote.key ≡ key)
              × IsResolved platform options date input.issuer_id input.key_id remote
              × IsVouched platform.parse_url parse_date policy now input remote))
evaluate-IsResolved platform options date parse_date policy now input remembered r h =
    let (key, k, reason) =
      evaluate-IsJustified platform.parse_url parse_date policy now input remembered h in
    (
      key,
      k,
      elim reason [
        | inl configured ↦ inl configured
        | inr (resolver, remote, used, answer, same, vouched) ↦
            let own : resolver ≡ create_did_web_resolver platform options date =
              some_injective (sym used ∙ r) in
            inr (
              remote,
              same,
              create_did_web_resolver-IsResolved platform options date input.issuer_id input.key_id
                  remote (sym (ap (λ f. f input.issuer_id input.key_id) own) ∙ answer),
              vouched,
            )
      ],
    )
