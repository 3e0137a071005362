-- ===== src/Verifier/TrustStore/Backed.antt =====
-- trust-store.ts: what isTrusted of the store rests on.
use credaryn.Base.{
  refl, false, ◌&&◌, ap, ◌||◌, is_some, Bool, find-Mem, ◌⊎◌, inl, inr, Option-cases, List, some,
  none, true_and, any-Mem, All, All-with_Mem, sym, true, ℤ, ◌≡◌, find, any, Option, ◌∷◌, [],
}
use credaryn.Core.TrustPolicy.Justified.{option_eq→eq}
use credaryn.Core.TrustPolicy.Evaluate.{resolve, evaluate}
use credaryn.Core.TrustPolicy.Remembers.{no_configured}
use credaryn.Core.TrustPolicy.Sound.{IsSound, evaluate-IsSound}
use credaryn.Core.TrustPolicy.Trusted.{IsJustified}
use credaryn.Core.TrustPolicy.{
  input_of, anchors, Remembered, option_eq, TrustPolicyInput, matches_key, X509TrustAnchor,
  TrustPolicy, is_trusted, reference,
}
use credaryn.Base.Maps.{lookup}
use credaryn.Core.KeyLifecycle.Active.{IsClean, before_separator}
use credaryn.Verifier.TrustStore.{
  empty_state, store_resolve, normalize_fingerprint, StoreState, store_is_trusted, same_key,
  is_anchored, resolve_all,
}
use mathlib.Core.List.{Mem}
use credaryn.Base.Text.{list_eq→eq, list_eq, Text}
use credaryn.Core.Signer.{SignerKeyInfo}
use credaryn.Core.Descriptor.{Url}

-- A configured key with the same issuer, name, algorithm and bytes, and the same fingerprint up to its
-- writing.
abbrev pub IsConfiguredAs : TrustPolicy → SignerKeyInfo → Type 0
IsConfiguredAs policy key =
    (configured : SignerKeyInfo) × Mem configured policy.configured_keys
    × (configured.issuer_id ≡ key.issuer_id)
    × (configured.key_id ≡ key.key_id)
    × (configured.algorithm ≡ key.algorithm)
    × (configured.public_key ≡ key.public_key)
    × (normalize_fingerprint configured.certificate_fingerprint
        ≡ normalize_fingerprint key.certificate_fingerprint)

-- An anchor of the issuer with the same fingerprint, up to its writing.
abbrev pub IsAnchoredAs : TrustPolicy → SignerKeyInfo → Type 0
IsAnchoredAs policy key =
    (anchor : X509TrustAnchor) × Mem anchor policy.x509_anchors
    × (anchor.issuer_id ≡ key.issuer_id)
    × (normalize_fingerprint (some anchor.certificate_fingerprint)
        ≡ normalize_fingerprint key.certificate_fingerprint)

-- No configured key has this issuer and this name.
abbrev pub IsUnknown : TrustPolicy → SignerKeyInfo → Type 0
IsUnknown policy key = find (matches_key (input_of key)) policy.configured_keys ≡ none

same_key-IsConfiguredAs :
    (policy : TrustPolicy) (configured key : SignerKeyInfo)
    → Mem configured policy.configured_keys
    → same_key configured key ≡ true
    → IsConfiguredAs policy key
unfolding same_key
same_key-IsConfiguredAs policy configured key member h =
    let print = normalize_fingerprint configured.certificate_fingerprint in
    let print' = normalize_fingerprint key.certificate_fingerprint in
    let (h1, bytes) = true_and _ (list_eq configured.public_key key.public_key) h in
    let (h2, prints) = true_and _ (option_eq print print') h1 in
    let (h3, algorithm) = true_and _ (list_eq configured.algorithm key.algorithm) h2 in
    let (issuer, name) =
      true_and (list_eq configured.issuer_id key.issuer_id) (list_eq configured.key_id key.key_id)
        h3 in
    (
      configured,
      member,
      list_eq→eq configured.issuer_id key.issuer_id issuer,
      list_eq→eq configured.key_id key.key_id name,
      list_eq→eq configured.algorithm key.algorithm algorithm,
      list_eq→eq configured.public_key key.public_key bytes,
      option_eq→eq print print' prints,
    )

any-IsAnchoredAs :
    (policy : TrustPolicy) (key : SignerKeyInfo)
    → any (is_anchored key) policy.x509_anchors ≡ true
    → IsAnchoredAs policy key
unfolding is_anchored
any-IsAnchoredAs policy key h =
    let (anchor, member, same) = any-Mem (is_anchored key) policy.x509_anchors h in
    let print = normalize_fingerprint (some anchor.certificate_fingerprint) in
    let print' = normalize_fingerprint key.certificate_fingerprint in
    let (issuer, prints) =
      true_and (list_eq anchor.issuer_id key.issuer_id) (option_eq print print') same in
    (
      anchor,
      member,
      list_eq→eq anchor.issuer_id key.issuer_id issuer,
      option_eq→eq print print' prints,
    )

anchors-IsAnchoredAs :
    (policy : TrustPolicy) (key : SignerKeyInfo)
    → any (anchors key) policy.x509_anchors ≡ true
    → IsAnchoredAs policy key
unfolding anchors
anchors-IsAnchoredAs policy key h =
    let (anchor, member, same) = any-Mem (anchors key) policy.x509_anchors h in
    let print = some anchor.certificate_fingerprint in
    let (issuer, prints) =
      true_and (list_eq anchor.issuer_id key.issuer_id)
        (option_eq print key.certificate_fingerprint) same in
    (
      anchor,
      member,
      list_eq→eq anchor.issuer_id key.issuer_id issuer,
      ap normalize_fingerprint (option_eq→eq print key.certificate_fingerprint prints),
    )

swap : {A B : Type 0} → A ⊎ B → B ⊎ A
swap (inl a) = inr a
swap (inr b) = inl b

-- One side of a test that holds, the other where the first does not.
either :
    {A B : Type 0} (a b c : Bool)
    → (a || b && c) ≡ true
    → (a ≡ true → A)
    → (c ≡ true → A ⊎ B)
    → A ⊎ B
either true b c h f g = inl (f refl)
either false true c h f g = g h
either false false c h f g = cc

module _ (parse_url : Text → Option Url) (parse_date : Text → Option ℤ) (policy : TrustPolicy) where
  store_resolve-IsSound :
      (IsCall : ℤ × TrustPolicyInput → Type 0) (now : ℤ) (input : TrustPolicyInput)
      (state : StoreState)
      → IsCall (now, input)
      → IsSound parse_url parse_date policy IsCall state.remembered
      → IsSound parse_url parse_date policy IsCall
          (store_resolve parse_url parse_date policy now input.key_id input.issuer_id
            state).1.remembered
  unfolding store_resolve resolve evaluate
  store_resolve-IsSound IsCall now input state call sound =
      elim (Option-cases (find (matches_key input) policy.configured_keys)) [
        | inr (configured, f) ↦ rw (store_resolve, f) sound
        | inl n ↦
            rw (store_resolve, n)
              (evaluate-IsSound parse_url parse_date policy IsCall now input state.remembered call
                sound)
      ]

  resolve_all-IsSound :
      (IsCall : ℤ × TrustPolicyInput → Type 0) (calls : List (ℤ × TrustPolicyInput))
      (state : StoreState)
      → All IsCall calls
      → IsSound parse_url parse_date policy IsCall state.remembered
      → IsSound parse_url parse_date policy IsCall
          (resolve_all parse_url parse_date policy calls state).remembered
  unfolding resolve_all
  resolve_all-IsSound IsCall [] state are_calls sound = sound
  resolve_all-IsSound IsCall ((now, input) ∷ calls) state (is_call, are_calls) sound =
      resolve_all-IsSound IsCall calls _ are_calls
        (store_resolve-IsSound IsCall now input state is_call sound)

  -- The call is one of the calls, and its issuer holds no U+0000.
  abbrev IsCleanCall : List (ℤ × TrustPolicyInput) → ℤ × TrustPolicyInput → Type 0
  IsCleanCall calls call = Mem call calls × IsClean call.1.issuer_id

  -- One of the calls was for the issuer and the name of the key, and justified the key it was given.
  abbrev pub IsCalledFor : List (ℤ × TrustPolicyInput) → SignerKeyInfo → Type 0
  IsCalledFor calls key =
      (now : ℤ) × (input : TrustPolicyInput) × (found : SignerKeyInfo) × Mem (now, input) calls
      × (input.issuer_id ≡ key.issuer_id)
      × (input.key_id ≡ key.key_id)
      × IsJustified parse_url parse_date policy now input found

  remembered-IsCalledFor :
      (calls : List (ℤ × TrustPolicyInput)) (remembered : Remembered) (key : SignerKeyInfo)
      → IsClean key.issuer_id
      → IsUnknown policy key
      → IsSound parse_url parse_date policy (IsCleanCall calls) remembered
      → is_trusted policy remembered key ≡ true
      → IsCalledFor calls key ⊎ IsAnchoredAs policy key
  unfolding is_trusted
  remembered-IsCalledFor calls remembered key clean unknown sound h =
      elim (Option-cases (lookup (reference key.issuer_id key.key_id) remembered)) [
        | inr (entry, l) ↦
            let (now, input, (call, clean'), same, justified) =
              sound (reference key.issuer_id key.key_id) entry l (rw (is_trusted, l) at h) in
            let (issuer, name) =
              before_separator key.issuer_id input.issuer_id key.key_id input.key_id same clean
                clean' in
            inl (now, input, entry.key, call, sym issuer, sym name, justified)
        | inl n ↦ inr (
            anchors-IsAnchoredAs policy key
              (rw (is_trusted, n, no_configured policy key policy.configured_keys unknown) at h))
      ]

  -- If a trust store, after any sequence of calls of resolve from its start, says that a key is
  -- trusted, and neither the issuer of the key nor those of the calls hold U+0000, then a
  -- configured key has the same issuer, name, algorithm and bytes, and the same fingerprint up to
  -- its writing, or no configured key has the issuer and the name, and an anchor of the issuer has
  -- the same fingerprint, up to its writing, or one of the calls was for the issuer and the name,
  -- and the policy justified a key for it at the time of the call.
  pub store_is_trusted-IsBacked :
      (calls : List (ℤ × TrustPolicyInput)) (key : SignerKeyInfo)
      → IsClean key.issuer_id
      → All (λ call. IsClean call.1.issuer_id) calls
      → store_is_trusted policy (resolve_all parse_url parse_date policy calls empty_state) key
        ≡ true
      → IsConfiguredAs policy key
        ⊎ (IsUnknown policy key × (IsAnchoredAs policy key ⊎ IsCalledFor calls key))
  unfolding store_is_trusted lookup
  store_is_trusted-IsBacked calls key clean are_clean h =
      elim (Option-cases (find (matches_key (input_of key)) policy.configured_keys)) [
        | inr (configured, f) ↦ inl (
            same_key-IsConfiguredAs policy configured key
              (find-Mem (matches_key (input_of key)) policy.configured_keys configured f).0
              (rw (store_is_trusted, f) at h))
        | inl unknown ↦
            let state = resolve_all parse_url parse_date policy calls empty_state in
            let sound =
              resolve_all-IsSound (IsCleanCall calls) calls empty_state
                (All-with_Mem (λ call. IsClean call.1.issuer_id) calls are_clean)
                (λ ref found l trusted. cc) in
            inr (
              unknown,
              either (any (is_anchored key) policy.x509_anchors) (is_some policy.resolver)
                  (is_trusted policy state.remembered key) (rw (store_is_trusted, unknown) at h)
                  (any-IsAnchoredAs policy key)
                  (λ t.
                    swap (remembered-IsCalledFor calls state.remembered key clean unknown sound t)),
            )
      ]
