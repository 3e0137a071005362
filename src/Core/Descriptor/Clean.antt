-- ===== src/Core/Descriptor/Clean.antt =====
-- The readers of validate-descriptor.ts where they report no issue.
use credaryn.Core.Document.{Claims, ClaimValue}
use credaryn.Base.Text.{starts_with, codes, list_eq, trim, Text}
use credaryn.Base.{
  some_injective, ◌++◌, Option-cases, All-append, All, subst, Bool, refl, [], inr, ◌∷◌, inl, ◌==◌,
  false, arith, Bool-cases, true, none, length, ◌≡◌, some, is_safe_integer, Option,
}
use credaryn.Core.Descriptor.{
  has_credentials, finish_url, url_issues, has_good_protocol, some_path, DescriptorEnvironment,
  read_claims, money_currency_issues, currency_issues, Url, no_more, claim_path, property,
  get_property, Properties, is_bad_key, read_identity, set_claim, claim_value, read_claim_entries,
  other, undefined, object, number, boolean, string, push, IssueCode, Unknown, has_no_issues,
  Issues, read_string, check_identity,
}
use credaryn.Core.Descriptor.Validate.{optional_issue}

-- An identity has some text and no surrounding white space.
unfoldable pub IsIdentity : Text → Type 0
IsIdentity s = (length (trim s) == 0 ≡ false) × (list_eq s (trim s) ≡ true)

abbrev pub IsSafe : ClaimValue → Type 0
IsSafe (ClaimValue.number z) = is_safe_integer z ≡ true
IsSafe (ClaimValue.string s) = Unit
IsSafe (ClaimValue.boolean b) = Unit

-- A key has some text and no surrounding white space, a number is a safe integer.
abbrev pub IsClaim : Text × ClaimValue → Type 0
IsClaim (key, claim) = IsIdentity key × IsSafe claim

pub push-has_issues :
    (issues : Issues) (p : Text) (c : IssueCode) → has_no_issues (push issues p c) ≡ false
push-has_issues [] p c = refl
push-has_issues (i ∷ issues) p c = refl

pub none_pushed :
    (issues : Issues) (p : Text) (c : IssueCode) → has_no_issues (push issues p c) ≡ true → ⊥
none_pushed [] p c h = ground arith
none_pushed (i ∷ issues) p c h = ground arith

-- A string that was read without an issue.
pub read_string-clean :
    (value : Unknown) (path : Text) (issues : Issues)
    → has_no_issues (read_string value path issues).1 ≡ true
    → has_no_issues issues ≡ true
unfolding read_string
read_string-clean undefined path issues h = absurd (none_pushed issues path _ h)
read_string-clean (string s) path issues h = h
read_string-clean (boolean b) path issues h = absurd (none_pushed issues path _ h)
read_string-clean (number z) path issues h = absurd (none_pushed issues path _ h)
read_string-clean other path issues h = absurd (none_pushed issues path _ h)
read_string-clean (object o) path issues h = absurd (none_pushed issues path _ h)

abbrev pub EachIdentity : Option Text → Type 0
EachIdentity none = Unit
EachIdentity (some s) = IsIdentity s

pub check_identity-clean :
    (field : Text) (o : Option Text) (issues : Issues)
    → has_no_issues (check_identity field (o, issues)).1 ≡ true
    → (has_no_issues issues ≡ true) × EachIdentity (check_identity field (o, issues)).0
unfolding check_identity IsIdentity
check_identity-clean field none issues h = (h, tt)
check_identity-clean field (some s) issues h = elim (Bool-cases (length (trim s) == 0)) [
  | inl blank ↦ absurd (none_pushed issues field _ (rw blank at h))
  | inr filled ↦ elim (Bool-cases (list_eq s (trim s))) [
    | inr padded ↦ absurd (none_pushed issues field _ (rw (filled, padded) at h))
    | inl trimmed ↦ rw (filled, trimmed) (rw (filled, trimmed) at h, (filled, trimmed))
  ]
]

pub read_identity-clean :
    (input : Properties) (field : Text) (issues : Issues)
    → has_no_issues (read_identity input field issues).1 ≡ true
    → (has_no_issues issues ≡ true) × EachIdentity (read_identity input field issues).0
unfolding read_identity
read_identity-clean input field issues h =
    let read = read_string (get_property field input) field issues in
    let (clean, each) = check_identity-clean field read.0 read.1 h in
    (read_string-clean (get_property field input) field issues clean, each)

pub optional_issue-clean :
    (b : Bool) (p : Text) (c : IssueCode) (issues : Issues)
    → has_no_issues (optional_issue b p c issues) ≡ true
    → (has_no_issues issues ≡ true) × (b ≡ true)
optional_issue-clean true p c issues h = (h, refl)
optional_issue-clean false p c issues h = absurd (none_pushed issues p c h)

pub set_claim-All :
    (key : Text) (claim : ClaimValue) (claims : Claims)
    → All IsClaim claims
    → IsClaim (key, claim)
    → All IsClaim (set_claim key claim claims)
unfolding set_claim
set_claim-All key claim claims a c = elim (Bool-cases (list_eq key (codes "__proto__"))) [
  | inl dropped ↦ rw dropped a
  | inr kept ↦ rw kept (All-append IsClaim claims ((key, claim) ∷ []) a (c, tt))
]

pub claim_value-IsSafe :
    (value : Unknown) (claim : ClaimValue) → claim_value value ≡ some claim → IsSafe claim
unfolding claim_value
claim_value-IsSafe undefined claim h = absurd (ground arith)
claim_value-IsSafe (string s) claim h = subst IsSafe (some_injective h) tt
claim_value-IsSafe (boolean b) claim h = subst IsSafe (some_injective h) tt
claim_value-IsSafe (number z) claim h = elim (Bool-cases (is_safe_integer z)) [
  | inl safe ↦ subst IsSafe (some_injective (rw safe at h)) safe
  | inr unsafe ↦ absurd (ground arith)
]
claim_value-IsSafe other claim h = absurd (ground arith)
claim_value-IsSafe (object o) claim h = absurd (ground arith)

pub read_claim_entries-clean :
    (entries : Properties) (claims : Claims) (issues : Issues)
    → All IsClaim claims
    → has_no_issues (read_claim_entries entries claims issues).1 ≡ true
    → (has_no_issues issues ≡ true) × All IsClaim (read_claim_entries entries claims issues).0
unfolding read_claim_entries is_bad_key IsIdentity
read_claim_entries-clean no_more claims issues a h = (h, a)
read_claim_entries-clean (property key value others) claims issues a h =
    elim (Bool-cases (length (trim key) == 0)) [
      | inl blank ↦ absurd (
          let (clean, _) = read_claim_entries-clean others claims _ a (rw blank at h) in
          none_pushed issues (claim_path key) _ clean)
      | inr filled ↦ elim (Bool-cases (list_eq key (trim key))) [
        | inr padded ↦ absurd (
            let (clean, _) =
              read_claim_entries-clean others claims _ a (rw (filled, padded) at h) in
            none_pushed issues (claim_path key) _ clean)
        | inl trimmed ↦ elim (Option-cases (claim_value value)) [
          | inl n ↦ absurd (
              let (clean, _) =
                read_claim_entries-clean others claims _ a (rw (filled, trimmed, n) at h) in
              none_pushed issues (claim_path key) _ clean)
          | inr (claim, e) ↦
              rw (filled, trimmed, e)
                (read_claim_entries-clean others (set_claim key claim claims) issues
                  (set_claim-All key claim claims a
                    ((filled, trimmed), claim_value-IsSafe value claim e))
                  (rw (filled, trimmed, e) at h))
        ]
      ]
    ]

abbrev pub EachClaims : Option Claims → Type 0
EachClaims none = Unit
EachClaims (some claims) = All IsClaim claims

pub read_claims-clean :
    (value : Unknown) (issues : Issues)
    → has_no_issues (read_claims value issues).1 ≡ true
    → (has_no_issues issues ≡ true) × EachClaims (read_claims value issues).0
unfolding read_claims
read_claims-clean undefined issues h = absurd (none_pushed issues _ _ h)
read_claims-clean (string s) issues h = absurd (none_pushed issues _ _ h)
read_claims-clean (boolean b) issues h = absurd (none_pushed issues _ _ h)
read_claims-clean (number z) issues h = absurd (none_pushed issues _ _ h)
read_claims-clean other issues h = absurd (none_pushed issues _ _ h)
read_claims-clean (object entries) issues h =
    let read = read_claim_entries entries [] issues in
    elim (Bool-cases (some_path (λ path. starts_with path (codes "claims.")) read.1)) [
      | inl bad ↦ rw bad ((read_claim_entries-clean entries [] issues tt (rw bad at h)).0, tt)
      | inr good ↦ rw good (read_claim_entries-clean entries [] issues tt (rw good at h))
    ]

pub append-clean :
    (xs ys : Issues)
    → has_no_issues (xs ++ ys) ≡ true
    → (has_no_issues xs ≡ true) × (has_no_issues ys ≡ true)
append-clean [] ys h = (refl, h)
append-clean (x ∷ xs) ys h = absurd (ground arith)

-- Under the strict rule, integer claims named `…Minor` come with a valid `currency`.
abbrev pub HasCurrency : Bool → Option Claims → Type 0
HasCurrency true (some claims) = has_no_issues (money_currency_issues claims) ≡ true
HasCurrency _ _ = Unit

pub currency_issues-clean :
    (strict : Bool) (claims : Option Claims) (issues : Issues)
    → has_no_issues (currency_issues strict claims issues) ≡ true
    → (has_no_issues issues ≡ true) × HasCurrency strict claims
unfolding currency_issues
currency_issues-clean true (some claims) issues h = append-clean issues _ h
currency_issues-clean true none issues h = (h, tt)
currency_issues-clean false claims issues h = (h, tt)

pub finish_url-clean :
    (s : Text) (issues : Issues)
    → has_no_issues (finish_url s issues).1 ≡ true
    → (has_no_issues issues ≡ true) × ((finish_url s issues).0 ≡ some s)
unfolding finish_url some_path
finish_url-clean s [] h = (refl, refl)
finish_url-clean s (i ∷ issues) h =
    elim (Bool-cases (some_path (λ path. list_eq path (codes "statusUrl")) (i ∷ issues))) [
      | inl bad ↦ absurd (ground arith)
      | inr good ↦ absurd (ground arith)
    ]

pub url_issues-clean :
    (environment : DescriptorEnvironment) (url : Url) (issues : Issues)
    → has_no_issues (url_issues environment url issues) ≡ true
    → (has_no_issues issues ≡ true)
      × (has_good_protocol environment url ≡ true)
      × (length url.username == 0 ≡ true)
      × (length url.password == 0 ≡ true)
unfolding url_issues
url_issues-clean environment url issues h =
    let credentials =
      elim (Bool-cases (length url.username == 0))
        as (λ _.
          has_credentials url ≡ false
          → (length url.username == 0 ≡ true) × (length url.password == 0 ≡ true)) [
            | inl a ↦ (λ k. ground arith)
            | inr a ↦ (λ k. ground arith)
          ] in
    elim (Bool-cases (has_credentials url)) [
      | inl bad ↦ absurd (none_pushed _ _ _ (rw bad at h))
      | inr good ↦ elim (Bool-cases (has_good_protocol environment url)) [
        | inl protocol ↦
            (rw (good, protocol) at h, protocol, (credentials good).0, (credentials good).1)
        | inr protocol ↦ absurd (none_pushed issues _ _ (rw (good, protocol) at h))
      ]
    ]
