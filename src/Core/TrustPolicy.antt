-- ===== src/Core/TrustPolicy.antt =====
-- packages/core/src/trust-policy.ts: the class TrustPolicy and its helpers. The `URL` parser,
-- `Date.parse` and the clock are parameters; the resolver is an option of the policy. Times are
-- integral numbers of milliseconds.
pub mod Evaluate
pub mod Justified
pub mod Trusted
pub mod Remembers
pub mod Sound
use credaryn.Core.Descriptor.{Url}
use credaryn.Core.Document.{TrustDecision}
use credaryn.Core.Signer.{SignerKeyInfo}
use credaryn.Base.Maps.{lookup, put, remove}
use credaryn.Base.Text.{ends_with, trim, is_blank, codes, list_eq, to_lower_case, Text}
use credaryn.Base.{
  not, [], find, ◌∷◌, ◌||◌, Result, ℤ, ◌&&◌, ◌++◌, none, any, false, true, some, if◌then◌else◌,
  List, Option, Bool,
}

pub data Freshness : Type 0 where
  fresh stale unavailable not_applicable : Freshness

pub data TrustMaterialSource : Type 0 where
  enterprise_anchor x509_chain did_web_domain unconfigured : TrustMaterialSource

pub record X509TrustAnchor : Type 0 where
  pub issuer_id : Text
  pub certificate_fingerprint : Text

pub data MaterialOrigin : Type 0 where
  fetched did_web : MaterialOrigin

pub record RemoteTrustMaterial : Type 0 where
  pub key : SignerKeyInfo
  pub url : Text
  pub fetched_at : Text
  pub source : MaterialOrigin

-- From an issuer and a key name. A rejected promise is an error.
abbrev pub TrustResolver : Type 0
TrustResolver = Text → Text → Result (Unit {0}) (Option RemoteTrustMaterial)

-- The fields of the class that its constructor sets once.
pub record TrustPolicy : Type 0 where
  pub configured_keys : List SignerKeyInfo
  pub x509_anchors : List X509TrustAnchor
  pub resolver : Option TrustResolver
  pub allowed_did_web_domains : List Text
  pub max_cache_age_ms : Option ℤ
  pub require_freshness : Bool

pub record TrustPolicyInput : Type 0 where
  pub issuer_id : Text
  pub key_id : Text

pub record TrustPolicyResult : Type 0 where
  pub trust_decision : TrustDecision
  pub trust_source : TrustMaterialSource
  pub freshness : Freshness
  pub key : Option SignerKeyInfo
  pub evidence : Text

pub record ResolvedDecision : Type 0 where
  pub key : SignerKeyInfo
  pub decision : TrustPolicyResult

-- The field `lastResolved`, the state of a policy.
abbrev pub Remembered : Type 0
Remembered = List (Text × ResolvedDecision)

-- The issuer and the name of a key.
abbrev pub input_of : SignerKeyInfo → TrustPolicyInput
input_of key = record { issuer_id = key.issuer_id; key_id = key.key_id }

unfoldable pub matches_key : TrustPolicyInput → SignerKeyInfo → Bool
matches_key input key = list_eq key.issuer_id input.issuer_id && list_eq key.key_id input.key_id

-- `===` on two values that are strings or undefined.
abbrev pub option_eq : Option Text → Option Text → Bool
option_eq none none = true
option_eq (some a) (some b) = list_eq a b
option_eq _ _ = false

unfoldable pub same_key : SignerKeyInfo → SignerKeyInfo → Bool
same_key left right =
    matches_key (record { issuer_id = right.issuer_id; key_id = right.key_id }) left
    && option_eq left.certificate_fingerprint right.certificate_fingerprint

abbrev pub reference : Text → Text → Text
reference issuer_id key_id = issuer_id ++ 0 ∷ key_id

unfoldable pub remember :
    TrustPolicyInput
    → SignerKeyInfo
    → TrustPolicyResult
    → Remembered
    → TrustPolicyResult × Remembered
remember input key decision remembered = (
  decision,
  put (reference input.issuer_id input.key_id) (record { key = key; decision = decision })
      remembered,
)

unfoldable pub untrusted :
    TrustPolicyInput → Remembered → Text → Freshness → TrustPolicyResult × Remembered
untrusted input remembered evidence freshness = (
  record {
    trust_decision = TrustDecision.untrusted;
    trust_source = unconfigured;
    freshness = freshness;
    key = none;
    evidence = evidence;
  },
  remove (reference input.issuer_id input.key_id) remembered,
)

unfoldable pub allows : Text → Text → Bool
allows lowered domain =
    let allowed = to_lower_case (trim domain) in
    not (list_eq allowed []) && (list_eq lowered allowed || ends_with lowered (b'.' ∷ allowed))

unfoldable pub is_allowed_domain : Text → List Text → Bool
is_allowed_domain hostname domains = any (allows (to_lower_case hostname)) domains

-- `candidate.issuerId === key.issuerId` and the same of the fingerprint.
unfoldable pub anchors : SignerKeyInfo → X509TrustAnchor → Bool
anchors key anchor =
    list_eq anchor.issuer_id key.issuer_id
    && option_eq (some anchor.certificate_fingerprint) key.certificate_fingerprint

abbrev pub is_did_web : MaterialOrigin → Bool
is_did_web fetched = false
is_did_web did_web = true

abbrev pub is_current : Freshness → Bool
is_current stale = false
is_current unavailable = false
is_current _ = true

abbrev pub is_fresh : Freshness → Bool
is_fresh fresh = true
is_fresh _ = false

abbrev pub is_trusted_decision : TrustDecision → Bool
is_trusted_decision TrustDecision.trusted = true
is_trusted_decision _ = false

-- `isTrusted`, a lookup in the state.
unfoldable pub is_trusted : TrustPolicy → Remembered → SignerKeyInfo → Bool
is_trusted policy remembered key = elim (lookup (reference key.issuer_id key.key_id) remembered) [
  | some found ↦ is_trusted_decision found.decision.trust_decision
  | none ↦
      any (λ configured. same_key configured key) policy.configured_keys
      || any (anchors key) policy.x509_anchors
]

abbrev pub has_fingerprint : Text → SignerKeyInfo → Bool
has_fingerprint fingerprint key = option_eq key.certificate_fingerprint (some fingerprint)

-- The loop over `lastResolved.values()`.
unfoldable pub find_remembered : Text → Remembered → Option SignerKeyInfo
find_remembered fingerprint [] = none
find_remembered fingerprint ((k, remembered) ∷ rest) =
    let found = find_remembered fingerprint rest in
    if has_fingerprint fingerprint remembered.key then some remembered.key else found

unfoldable pub resolve_by_fingerprint : TrustPolicy → Remembered → Text → Option SignerKeyInfo
resolve_by_fingerprint policy remembered fingerprint =
    if is_blank fingerprint
    then none
    else elim (find (has_fingerprint fingerprint) policy.configured_keys) [
      | some configured ↦ some configured
      | none ↦ find_remembered fingerprint remembered
    ]

module _ (parse_url : Text → Option Url) where
  unfoldable pub is_https_url : Text → Bool
  is_https_url url = elim (parse_url url) [
    | none ↦ false
    | some parsed ↦ list_eq parsed.protocol (codes "https:")
  ]

  unfoldable pub is_allowed_did_web_domain : Text → List Text → Bool
  is_allowed_did_web_domain url domains = elim (parse_url url) [
    | none ↦ false
    | some parsed ↦ is_allowed_domain parsed.hostname domains
  ]
