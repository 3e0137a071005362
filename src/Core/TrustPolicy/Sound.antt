-- ===== src/Core/TrustPolicy/Sound.antt =====
-- trust-policy.ts: the decisions that a policy remembers over a run of calls.
use credaryn.Core.TrustPolicy.Evaluate.{
  decide_remote, judge_answer, ask_resolver, evaluate, evaluate_all,
}
use credaryn.Core.TrustPolicy.Trusted.{IsJustified, evaluate-IsJustified}
use credaryn.Base.Maps.{
  lookup, put, remove, lookup-put, lookup-remove, lookup-put-other, lookup-remove-other,
}
use credaryn.Core.TrustPolicy.{
  is_trusted_decision, matches_key, RemoteTrustMaterial, TrustPolicyResult, TrustResolver,
  ResolvedDecision, reference, Remembered, TrustPolicyInput, TrustPolicy, remember, untrusted,
}
use mathlib.Core.List.{Mem, mem-cons_self, mem-cons_of_mem}
use credaryn.Base.Text.{list_eq→eq, list_eq, Text}
use credaryn.Base.{
  ◌∙◌, subst, ◌∷◌, [], some_injective, List, refl, true, sym, ok, none, inr, ◌⊎◌, err, some,
  Bool-cases, ◌≡◌, inl, find, Result, Option-cases, ℤ, Option,
}
use credaryn.Core.Descriptor.{Url}
use credaryn.Core.Signer.{SignerKeyInfo}

module _ (parse_url : Text → Option Url) (parse_date : Text → Option ℤ) (policy : TrustPolicy) where
  -- The state after an evaluation: the entry of the input is gone, or holds the result and its key.
  abbrev IsUpdated : TrustPolicyInput → Remembered → TrustPolicyResult → Remembered → Type 0
  IsUpdated input remembered result after =
      (after ≡ remove (reference input.issuer_id input.key_id) remembered)
      ⊎ ((found : SignerKeyInfo) × (result.key ≡ some found)
          × (after
              ≡ put (reference input.issuer_id input.key_id)
                  (record { key = found; decision = result }) remembered))

  judge_answer-IsUpdated :
      (now : ℤ) (input : TrustPolicyInput) (remembered : Remembered)
      (answer : Result (Unit {0}) (Option RemoteTrustMaterial))
      → let out = judge_answer parse_url parse_date policy now input remembered answer in
        IsUpdated input remembered out.0 out.1
  unfolding judge_answer untrusted remember decide_remote
  judge_answer-IsUpdated now input remembered (err e) = inl refl
  judge_answer-IsUpdated now input remembered (ok none) = inl refl
  judge_answer-IsUpdated now input remembered (ok (some remote)) =
      elim (Bool-cases (matches_key input remote.key)) [
        | inl same ↦ rw same (inr (remote.key, refl, refl))
        | inr other ↦ rw other (inl refl)
      ]

  ask_resolver-IsUpdated :
      (now : ℤ) (input : TrustPolicyInput) (remembered : Remembered)
      (resolver : Option TrustResolver)
      → let out = ask_resolver parse_url parse_date policy now input remembered resolver in
        IsUpdated input remembered out.0 out.1
  unfolding ask_resolver untrusted
  ask_resolver-IsUpdated now input remembered none = inl refl
  ask_resolver-IsUpdated now input remembered (some resolver) =
      judge_answer-IsUpdated now input remembered (resolver input.issuer_id input.key_id)

  evaluate-IsUpdated :
      (now : ℤ) (input : TrustPolicyInput) (remembered : Remembered)
      → let out = evaluate parse_url parse_date policy now input remembered in
        IsUpdated input remembered out.0 out.1
  unfolding evaluate remember
  evaluate-IsUpdated now input remembered =
      elim (Option-cases (find (matches_key input) policy.configured_keys)) [
        | inl n ↦ rw (evaluate, n) (ask_resolver-IsUpdated now input remembered policy.resolver)
        | inr (found, f) ↦ rw (evaluate, f) (inr (found, refl, refl))
      ]

  -- Every remembered decision of trust is justified by one of the calls, and stands under the
  -- issuer and the key name of this call.
  abbrev pub IsSound : (ℤ × TrustPolicyInput → Type 0) → Remembered → Type 0
  IsSound IsCall remembered =
      (ref : Text) (found : ResolvedDecision)
      → lookup ref remembered ≡ some found
      → is_trusted_decision found.decision.trust_decision ≡ true
      → (now : ℤ) × (input : TrustPolicyInput) × IsCall (now, input)
        × (ref ≡ reference input.issuer_id input.key_id)
        × IsJustified parse_url parse_date policy now input found.key

  pub evaluate-IsSound :
      (IsCall : ℤ × TrustPolicyInput → Type 0) (now : ℤ) (input : TrustPolicyInput)
      (remembered : Remembered)
      → IsCall (now, input)
      → IsSound IsCall remembered
      → IsSound IsCall (evaluate parse_url parse_date policy now input remembered).1
  evaluate-IsSound IsCall now input remembered call sound ref found l trusted =
      let out = evaluate parse_url parse_date policy now input remembered in
      let here = reference input.issuer_id input.key_id in
      elim (evaluate-IsUpdated now input remembered) [
        | inl removed ↦ elim (Bool-cases (list_eq here ref)) [
          | inl same ↦
              let bad : none ≡ some found =
                rw (removed, sym (list_eq→eq here ref same), lookup-remove here remembered) at l in
              cc
          | inr other ↦
              sound ref found (rw (removed, lookup-remove-other here ref remembered other) at l)
                trusted
        ]
        | inr (key, k, stored) ↦ elim (Bool-cases (list_eq here ref)) [
          | inl same ↦
              let entry : ResolvedDecision = record { key = key; decision = out.0 } in
              let held : entry ≡ found = some_injective (
                rw (stored, sym (list_eq→eq here ref same), lookup-put here entry remembered) at
                  l) in
              let (justified, j, reason) =
                evaluate-IsJustified parse_url parse_date policy now input remembered (
                  subst (λ e. is_trusted_decision e.decision.trust_decision ≡ true) (sym held)
                    trusted) in
              (
                now,
                input,
                call,
                sym (list_eq→eq here ref same),
                subst (λ e. IsJustified parse_url parse_date policy now input e.key) held
                    (subst (IsJustified parse_url parse_date policy now input)
                      (some_injective (sym j ∙ k)) reason),
              )
          | inr other ↦
              sound ref found (rw (stored, lookup-put-other here ref _ remembered other) at l)
                trusted
        ]
      ]

  kept_by_all :
      (IsCall : ℤ × TrustPolicyInput → Type 0) (calls : List (ℤ × TrustPolicyInput))
      (remembered : Remembered)
      → ((call : ℤ × TrustPolicyInput) → Mem call calls → IsCall call)
      → IsSound IsCall remembered
      → IsSound IsCall (evaluate_all parse_url parse_date policy calls remembered)
  unfolding evaluate_all
  kept_by_all IsCall [] remembered member sound = sound
  kept_by_all IsCall ((now, input) ∷ calls) remembered member sound =
      kept_by_all IsCall calls (evaluate parse_url parse_date policy now input remembered).1
        (λ call m. member call (mem-cons_of_mem (now, input) m))
        (evaluate-IsSound IsCall now input remembered (member (now, input) mem-cons_self) sound)

  -- Whatever is evaluated, from a policy that remembers nothing, every decision of trust that it
  -- remembers is justified by one of the calls, at the time of that call, and stands under the
  -- issuer and the key name of the call.
  pub evaluate_all-IsSound :
      (calls : List (ℤ × TrustPolicyInput))
      → IsSound (λ call. Mem call calls) (evaluate_all parse_url parse_date policy calls [])
  unfolding lookup
  evaluate_all-IsSound calls =
      kept_by_all (λ call. Mem call calls) calls [] (λ call m. m) (λ ref found l trusted. cc)
