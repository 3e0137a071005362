-- ===== src/Verifier/TrustStore.antt =====
-- packages/verifier/src/trust-store.ts: createPolicyTrustStore. The store is a trust policy and a map
-- of the keys that it has resolved; its calls take the state and hand on the next one. The clock, the
-- `URL` parser and `Date.parse` are parameters.
pub mod Bundle
pub mod Backed
pub mod Loaded
pub mod Whole
use credaryn.Base.{
  is_some, ◌||◌, length, ◌&&◌, any, false, not, ◌==◌, find, ℤ, Bool, Result, some, none,
  if◌then◌else◌, List, ℕ, Option, ◌∷◌, [],
}
use credaryn.Core.TrustPolicy.{
  unconfigured, did_web_domain, enterprise_anchor, x509_chain, TrustPolicyInput,
  TrustMaterialSource, TrustPolicy, Remembered, TrustResolver, X509TrustAnchor, matches_key,
  option_eq, is_trusted, reference,
}
use credaryn.Core.TrustPolicy.{input_of}
use credaryn.Core.TrustPolicy.Evaluate.{resolve}
use credaryn.Core.DidWeb.Resolver.{create_did_web_resolver, Platform}
use credaryn.Base.Maps.{put, remove}
use credaryn.Base.Text.{trim, to_lower_case, is_blank, list_eq, Text}
use credaryn.Core.Signer.{SignerKeyInfo}
use credaryn.Core.Descriptor.{Url}
use credaryn.Core.DidWeb.Body.{Response}

pub record PolicyTrustStoreConfig : Type 0 where
  pub keys : List SignerKeyInfo
  pub x509_anchors : List X509TrustAnchor
  pub did_web_domains : List Text
  pub development_only : Bool

-- What `fetch` and the lookup of names do, and the time of a call.
pub record Network : Type 0 where
  pub fetch : Text → Result (Unit {0}) Response
  pub lookup : Text → Result (Unit {0}) (List Text)
  pub date : Text

abbrev pub default_did_web_max_bytes : ℕ
default_did_web_max_bytes = 262144

-- `resolver`: the injected one, or that for the domains, if there are any.
unfoldable pub choose_resolver :
    Platform → Network → Option TrustResolver → List Text → Option TrustResolver
choose_resolver platform network (some injected) domains = some injected
choose_resolver platform network none [] = none
choose_resolver platform network none (d ∷ domains) = some (
    create_did_web_resolver platform
      (record {
        fetch_impl = some network.fetch;
        allowed_domains = d ∷ domains;
        max_bytes = default_did_web_max_bytes;
        lookup = network.lookup;
      })
      network.date)

-- The policy of the store: without a limit of age, and without required freshness.
unfoldable pub store_policy :
    Platform → Network → Option TrustResolver → PolicyTrustStoreConfig → TrustPolicy
store_policy platform network injected config = record {
  configured_keys = config.keys;
  x509_anchors = config.x509_anchors;
  resolver = choose_resolver platform network injected config.did_web_domains;
  allowed_did_web_domains = config.did_web_domains;
  max_cache_age_ms = none;
  require_freshness = false;
}

unfoldable pub trust_source_for : PolicyTrustStoreConfig → TrustMaterialSource
trust_source_for config =
    if not (length config.x509_anchors == 0)
    then x509_chain
    else if not (length config.keys == 0)
    then enterprise_anchor
    else if not (length config.did_web_domains == 0)
    then did_web_domain
    else unconfigured

-- The two maps behind the store.
pub record StoreState : Type 0 where
  pub remembered : Remembered
  pub resolved : List (Text × SignerKeyInfo)

abbrev pub empty_state : StoreState
empty_state = record { remembered = []; resolved = [] }

unfoldable pub drop_colons : Text → Text
drop_colons [] = []
drop_colons (c ∷ s) = let rest = drop_colons s in if c == b':' then rest else c ∷ rest

unfoldable pub normalize_fingerprint : Option Text → Option Text
normalize_fingerprint none = none
normalize_fingerprint (some s) =
    if is_blank s then none else some (drop_colons (to_lower_case (trim s)))

unfoldable pub same_key : SignerKeyInfo → SignerKeyInfo → Bool
same_key left right =
    list_eq left.issuer_id right.issuer_id
    && list_eq left.key_id right.key_id
    && list_eq left.algorithm right.algorithm
    && option_eq (normalize_fingerprint left.certificate_fingerprint)
        (normalize_fingerprint right.certificate_fingerprint)
    && list_eq left.public_key right.public_key

unfoldable pub is_anchored : SignerKeyInfo → X509TrustAnchor → Bool
is_anchored key anchor =
    list_eq anchor.issuer_id key.issuer_id
    && option_eq (normalize_fingerprint (some anchor.certificate_fingerprint))
        (normalize_fingerprint key.certificate_fingerprint)

unfoldable pub store_is_trusted : TrustPolicy → StoreState → SignerKeyInfo → Bool
store_is_trusted policy state key =
    elim (find (matches_key (input_of key)) policy.configured_keys) [
      | some configured ↦ same_key configured key
      | none ↦
          any (is_anchored key) policy.x509_anchors
          || is_some policy.resolver && is_trusted policy state.remembered key
    ]

abbrev has_print : Text → SignerKeyInfo → Bool
has_print normalized key =
    option_eq (normalize_fingerprint key.certificate_fingerprint) (some normalized)

unfoldable pub find_resolved : Text → List (Text × SignerKeyInfo) → Option SignerKeyInfo
find_resolved normalized [] = none
find_resolved normalized ((k, key) ∷ rest) =
    let found = find_resolved normalized rest in
    if has_print normalized key then some key else found

unfoldable pub store_resolve_by_fingerprint : TrustPolicy → StoreState → Text → Option SignerKeyInfo
store_resolve_by_fingerprint policy state fingerprint =
    elim (normalize_fingerprint (some fingerprint)) [
      | none ↦ none
      | some normalized ↦ elim (find (has_print normalized) policy.configured_keys) [
        | some configured ↦ some configured
        | none ↦ find_resolved normalized state.resolved
      ]
    ]

abbrev keep :
    Text → Option SignerKeyInfo → List (Text × SignerKeyInfo) → List (Text × SignerKeyInfo)
keep ref none resolved = remove ref resolved
keep ref (some key) resolved = put ref key resolved

module _ (parse_url : Text → Option Url) (parse_date : Text → Option ℤ) where
  unfoldable pub store_resolve :
      TrustPolicy → ℤ → Text → Text → StoreState → Option SignerKeyInfo × StoreState
  store_resolve policy now key_id issuer_id state =
      elim (find (matches_key (record { issuer_id = issuer_id; key_id = key_id }))
        policy.configured_keys) [
          | some configured ↦ (some configured, state)
          | none ↦
              let (key, remembered) =
                resolve parse_url parse_date policy now key_id issuer_id state.remembered in
              (
                key,
                record {
                  remembered = remembered;
                  resolved = keep (reference issuer_id key_id) key state.resolved;
                },
              )
        ]

  -- The state after a run of calls of `resolve`, each at its time.
  unfoldable pub resolve_all : TrustPolicy → List (ℤ × TrustPolicyInput) → StoreState → StoreState
  resolve_all policy [] state = state
  resolve_all policy ((now, input) ∷ calls) state =
      resolve_all policy calls (store_resolve policy now input.key_id input.issuer_id state).1
