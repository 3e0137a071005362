-- ===== src/Core/TrustPolicy/Justified.antt =====
-- trust-policy.ts: what a decision that a key is trusted rests on.
use credaryn.Core.TrustPolicy.Evaluate.{
  is_valid_did_web, has_valid_anchor, satisfies_policy, freshness_of,
}
use mathlib.Core.List.{Mem}
use credaryn.Core.TrustPolicy.{
  fetched, MaterialOrigin, is_allowed_did_web_domain, is_did_web, allows, is_allowed_domain,
  is_https_url, option_eq, is_current, anchors, did_web, RemoteTrustMaterial, X509TrustAnchor,
  TrustPolicyInput, TrustPolicy,
}
use credaryn.Base.Text.{
  list_eq_iff, list_eq→eq, list_eq, ends_with, codes, trim, to_lower_case, Text,
}
use credaryn.Core.Signer.{SignerKeyInfo}
use credaryn.Base.{
  ◌&&◌, List, ◌||◌, not, any-Mem, is_some, refl, sym, ap, true_and, is_some-cases, Bool-cases,
  find-Mem, false, inr, int_sub, inl, find, is_positive, Option-cases, none, ◌∷◌, true, ◌⊎◌, [],
  some, ◌≢◌, ◌≡◌, ℤ, Option,
}
use credaryn.Core.Descriptor.{Url}

-- A key that the policy itself lists, for the issuer and the key name that were asked for.
abbrev pub IsConfigured : TrustPolicy → TrustPolicyInput → SignerKeyInfo → Type 0
IsConfigured policy input key =
    Mem key policy.configured_keys × (key.issuer_id ≡ input.issuer_id) × (key.key_id ≡ input.key_id)

-- An anchor that names the issuer and the fingerprint of the key.
abbrev pub IsAnchored : TrustPolicy → SignerKeyInfo → Type 0
IsAnchored policy key =
    (anchor : X509TrustAnchor) × Mem anchor policy.x509_anchors
    × (anchor.issuer_id ≡ key.issuer_id)
    × (key.certificate_fingerprint ≡ some anchor.certificate_fingerprint)

-- A host that is a listed domain or a subdomain of one, both in lower case.
abbrev pub IsListed : TrustPolicy → Text → Type 0
IsListed policy hostname =
    (domain : Text) × Mem domain policy.allowed_did_web_domains
    × (to_lower_case (trim domain) ≢ [])
    × ((to_lower_case hostname ≡ to_lower_case (trim domain))
        ⊎ (ends_with (to_lower_case hostname) (b'.' ∷ to_lower_case (trim domain)) ≡ true))

-- The material is no older than the limit, if there is one.
abbrev pub IsRecent : (Text → Option ℤ) → TrustPolicy → ℤ → RemoteTrustMaterial → Type 0
IsRecent parse_date policy now remote =
    (policy.max_cache_age_ms ≡ none)
    ⊎ ((max_age : ℤ) × (date : ℤ) × (policy.max_cache_age_ms ≡ some max_age)
        × (parse_date remote.fetched_at ≡ some date)
        × (is_positive (int_sub (int_sub now date) max_age) ≡ false))

-- What the resolver gave is for the key that was asked for, from an HTTPS URL, and anchored or from
-- a listed did:web host and recent; it is recent too where the policy requires it.
abbrev pub IsVouched :
    (Text → Option Url)
    → (Text → Option ℤ)
    → TrustPolicy
    → ℤ
    → TrustPolicyInput
    → RemoteTrustMaterial
    → Type 0
IsVouched parse_url parse_date policy now input remote =
    (url : Url) × (parse_url remote.url ≡ some url)
    × (url.protocol ≡ codes "https:")
    × (remote.key.issuer_id ≡ input.issuer_id)
    × (remote.key.key_id ≡ input.key_id)
    × (IsAnchored policy remote.key
        ⊎ ((remote.source ≡ did_web)
            × IsListed policy url.hostname
            × IsRecent parse_date policy now remote))
    × (policy.require_freshness ≡ true → IsRecent parse_date policy now remote)

pub option_eq→eq : (a b : Option Text) → option_eq a b ≡ true → a ≡ b
option_eq→eq none none h = refl
option_eq→eq (some a) (some b) h = ap (λ t. some t) (list_eq→eq a b h)
option_eq→eq none (some b) h = cc
option_eq→eq (some a) none h = cc

pub freshness_of-IsRecent :
    (parse_date : Text → Option ℤ) (policy : TrustPolicy) (now : ℤ) (remote : RemoteTrustMaterial)
    → is_current (freshness_of parse_date policy.max_cache_age_ms now remote.fetched_at) ≡ true
    → IsRecent parse_date policy now remote
unfolding freshness_of
freshness_of-IsRecent parse_date policy now remote current =
    elim (Option-cases policy.max_cache_age_ms) [
      | inl n ↦ inl n
      | inr (max_age, m) ↦ elim (Option-cases (parse_date remote.fetched_at)) [
        | inl n ↦ let bad : false ≡ true = rw (m, freshness_of, n) at current in cc
        | inr (date, f) ↦ elim (Bool-cases (is_positive (int_sub (int_sub now date) max_age))) [
          | inl late ↦ let bad : false ≡ true = rw (m, freshness_of, f, late) at current in cc
          | inr intime ↦ inr (max_age, date, m, f, intime)
        ]
      ]
    ]

find-Anchored :
    (policy : TrustPolicy) (key : SignerKeyInfo)
    → is_some (find (anchors key) policy.x509_anchors) ≡ true
    → IsAnchored policy key
unfolding anchors
find-Anchored policy key h =
    let (anchor, found) = is_some-cases (find (anchors key) policy.x509_anchors) h in
    let (member, same) = find-Mem (anchors key) policy.x509_anchors anchor found in
    let (issuer, print) =
      true_and (list_eq anchor.issuer_id key.issuer_id)
        (option_eq (some anchor.certificate_fingerprint) key.certificate_fingerprint) same in
    (
      anchor,
      member,
      list_eq→eq anchor.issuer_id key.issuer_id issuer,
      sym (option_eq→eq (some anchor.certificate_fingerprint) key.certificate_fingerprint print),
    )

any-Listed :
    (policy : TrustPolicy) (hostname : Text)
    → is_allowed_domain hostname policy.allowed_did_web_domains ≡ true
    → IsListed policy hostname
unfolding is_allowed_domain allows
any-Listed policy hostname h =
    let (domain, member, test) =
      any-Mem (allows (to_lower_case hostname)) policy.allowed_did_web_domains h in
    let allowed = to_lower_case (trim domain) in
    let lowered = to_lower_case hostname in
    let (some_text, equal_or_under) =
      true_and (not (list_eq allowed []))
        (list_eq lowered allowed || ends_with lowered (b'.' ∷ allowed)) test in
    (
      domain,
      member,
      (λ e. let bad : false ≡ true = rw ((list_eq_iff allowed []).1 e) at some_text in cc),
      elim (Bool-cases (list_eq lowered allowed)) [
        | inl same ↦ inl (list_eq→eq lowered allowed same)
        | inr other ↦ inr (rw other at equal_or_under)
      ],
    )

-- A URL that is over HTTPS, and its host.
https-parsed :
    (parse_url : Text → Option Url) (url : Text)
    → is_https_url parse_url url ≡ true
    → (parsed : Url) × (parse_url url ≡ some parsed) × (parsed.protocol ≡ codes "https:")
unfolding is_https_url
https-parsed parse_url url h = elim (Option-cases (parse_url url)) [
  | inl n ↦ let bad : false ≡ true = rw (is_https_url, n) at h in cc
  | inr (parsed, p) ↦
      (parsed, p, list_eq→eq parsed.protocol (codes "https:") (rw (is_https_url, p) at h))
]

domain-parsed :
    (parse_url : Text → Option Url) (url : Text) (parsed : Url) (domains : List Text)
    → parse_url url ≡ some parsed
    → is_allowed_did_web_domain parse_url url domains ≡ true
    → is_allowed_domain parsed.hostname domains ≡ true
unfolding is_allowed_did_web_domain
domain-parsed parse_url url parsed domains p h = rw (is_allowed_did_web_domain, p) at h

did_web_origin : (origin : MaterialOrigin) → is_did_web origin ≡ true → origin ≡ did_web
did_web_origin fetched h = cc
did_web_origin did_web h = refl

pub satisfies_policy-IsVouched :
    (parse_url : Text → Option Url) (parse_date : Text → Option ℤ) (policy : TrustPolicy) (now : ℤ)
    (remote : RemoteTrustMaterial)
    → satisfies_policy parse_url policy remote
        (freshness_of parse_date policy.max_cache_age_ms now remote.fetched_at)
      ≡ true
    → (url : Url) × (parse_url remote.url ≡ some url)
      × (url.protocol ≡ codes "https:")
      × (IsAnchored policy remote.key
          ⊎ ((remote.source ≡ did_web)
              × IsListed policy url.hostname
              × IsRecent parse_date policy now remote))
unfolding satisfies_policy has_valid_anchor is_valid_did_web
satisfies_policy-IsVouched parse_url parse_date policy now remote h =
    let freshness = freshness_of parse_date policy.max_cache_age_ms now remote.fetched_at in
    elim (Bool-cases (has_valid_anchor parse_url policy remote)) [
      | inl valid ↦
          let (found, secure) =
            true_and (is_some (find (anchors remote.key) policy.x509_anchors))
              (is_https_url parse_url remote.url) valid in
          let (url, p, protocol) = https-parsed parse_url remote.url secure in
          (url, p, protocol, inl (find-Anchored policy remote.key found))
      | inr not_anchored ↦
          let (valid, current) =
            true_and (is_valid_did_web parse_url policy remote) (is_current freshness)
              (rw not_anchored at h) in
          let (first, listed) =
            true_and (is_did_web remote.source && is_https_url parse_url remote.url)
              (is_allowed_did_web_domain parse_url remote.url policy.allowed_did_web_domains)
              valid in
          let (from_did_web, secure) =
            true_and (is_did_web remote.source) (is_https_url parse_url remote.url) first in
          let (url, p, protocol) = https-parsed parse_url remote.url secure in
          (
            url,
            p,
            protocol,
            inr (
              did_web_origin remote.source from_did_web,
              any-Listed policy url.hostname (domain-parsed parse_url remote.url url _ p listed),
              freshness_of-IsRecent parse_date policy now remote current,
            ),
          )
    ]
