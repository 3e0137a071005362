-- ===== src/Core/Descriptor/Accepted.antt =====
-- validate-descriptor.ts: what an accepted descriptor looks like.
use credaryn.Core.Document.{DocumentDescriptor, Claims}
use credaryn.Base.Text.{codes, Text}
use credaryn.Base.{
  ap, ok_injective, ok, Option-cases, All, subst, Bool, [], inr, inl, ◌==◌, arith, Bool-cases, true,
  none, length, ◌≡◌, some, Option,
}
use credaryn.Core.Descriptor.{
  url_issues, DescriptorValidationOptions, has_good_protocol, DescriptorEnvironment, check_url,
  read_claims, currency_issues, Url, get_property, Properties, read_identity, other, undefined,
  object, number, boolean, string, Unknown, has_no_issues, Issues, read_string,
}
use credaryn.Core.Descriptor.Validate.{
  assemble, validate_properties, validate_descriptor, read_status_url, is_rfc3339, check_date,
}
use credaryn.Core.Descriptor.Clean.{
  EachClaims, EachIdentity, read_identity-clean, HasCurrency, read_string-clean, url_issues-clean,
  IsClaim, read_claims-clean, finish_url-clean, none_pushed, IsIdentity, optional_issue-clean,
  currency_issues-clean,
}

module _ (date_parses : Text → Bool) (parse_url : Text → Option Url) where
  -- A status URL parses, is an HTTPS URL or a local one in development, and has no credentials.
  abbrev pub HasGoodUrl : DescriptorEnvironment → Option Text → Type 0
  HasGoodUrl environment none = Unit
  HasGoodUrl environment (some s) =
      (url : Url) × (parse_url s ≡ some url)
      × (has_good_protocol environment url ≡ true)
      × (length url.username == 0 ≡ true)
      × (length url.password == 0 ≡ true)

  check_url-clean :
      (environment : DescriptorEnvironment) (s : Text) (url : Url) (issues : Issues)
      → parse_url s ≡ some url
      → has_no_issues (check_url environment s url issues).1 ≡ true
      → (has_no_issues issues ≡ true)
        × HasGoodUrl environment (check_url environment s url issues).0
  unfolding check_url
  check_url-clean environment s url issues e h =
      let (none_left, value) = finish_url-clean s (url_issues environment url issues) h in
      let (clean, good, name, word) = url_issues-clean environment url issues none_left in
      rw value (clean, (url, e, good, name, word))

  read_status_url-clean :
      (value : Unknown) (environment : DescriptorEnvironment) (issues : Issues)
      → has_no_issues (read_status_url date_parses parse_url value environment issues).1 ≡ true
      → (has_no_issues issues ≡ true)
        × HasGoodUrl environment (read_status_url date_parses parse_url value environment issues).0
  unfolding read_status_url
  read_status_url-clean undefined environment issues h = (h, tt)
  read_status_url-clean (string s) environment issues h = elim (Option-cases (parse_url s)) [
    | inl n ↦ absurd (none_pushed issues (codes "statusUrl") _ (rw (read_status_url, n) at h))
    | inr (url, e) ↦
        rw (read_status_url, e)
          (check_url-clean environment s url issues e (rw (read_status_url, e) at h))
  ]
  read_status_url-clean (boolean b) environment issues h = absurd (none_pushed issues _ _ h)
  read_status_url-clean (number z) environment issues h = absurd (none_pushed issues _ _ h)
  read_status_url-clean other environment issues h = absurd (none_pushed issues _ _ h)
  read_status_url-clean (object o) environment issues h = absurd (none_pushed issues _ _ h)

  -- What the code asks of a descriptor.
  pub record IsWellFormed (options : DescriptorValidationOptions) (d : DocumentDescriptor)
      : Type 0 where
    pub issuer : IsIdentity d.issuer_id
    pub document : IsIdentity d.document_id
    pub kind : IsIdentity d.document_type
    pub issued : is_rfc3339 date_parses parse_url d.issued_at ≡ true
    pub claims_good : All IsClaim d.claims
    pub currency : HasCurrency options.require_explicit_currency (some d.claims)
    pub url : HasGoodUrl options.environment d.status_url

  EachDate : Option Text → Type 0
  EachDate none = Unit
  EachDate (some s) = is_rfc3339 date_parses parse_url s ≡ true

  check_date-clean :
      (o : Option Text) (issues : Issues)
      → has_no_issues (check_date date_parses parse_url (o, issues)).1 ≡ true
      → (has_no_issues issues ≡ true) × EachDate (check_date date_parses parse_url (o, issues)).0
  unfolding check_date EachDate
  check_date-clean none issues h = (h, tt)
  check_date-clean (some s) issues h = optional_issue-clean _ _ _ issues h

  assemble-eq-ok :
      (a b c d : Option Text) (e : Option Claims) (url : Option Text) (issues : Issues)
      (r : DocumentDescriptor)
      → assemble date_parses parse_url a b c d e url issues ≡ ok r
      → (has_no_issues issues ≡ true)
        × (a ≡ some r.issuer_id)
        × (b ≡ some r.document_id)
        × (c ≡ some r.document_type)
        × (d ≡ some r.issued_at)
        × (e ≡ some r.claims)
        × (url ≡ r.status_url)
  unfolding assemble
  assemble-eq-ok (some a) (some b) (some c) (some d) (some e) url issues r h =
      elim (Bool-cases (has_no_issues issues)) [
        | inl clean ↦
            let same = ok_injective _ _ (rw clean at h) in
            (
              clean,
              ap (λ (x : DocumentDescriptor). some x.issuer_id) same,
              ap (λ (x : DocumentDescriptor). some x.document_id) same,
              ap (λ (x : DocumentDescriptor). some x.document_type) same,
              ap (λ (x : DocumentDescriptor). some x.issued_at) same,
              ap (λ (x : DocumentDescriptor). some x.claims) same,
              ap (λ (x : DocumentDescriptor). x.status_url) same,
            )
        | inr bad ↦ absurd (ground arith)
      ]
  assemble-eq-ok none b c d e url issues r h = absurd (ground arith)
  assemble-eq-ok (some a) none c d e url issues r h = absurd (ground arith)
  assemble-eq-ok (some a) (some b) none d e url issues r h = absurd (ground arith)
  assemble-eq-ok (some a) (some b) (some c) none e url issues r h = absurd (ground arith)
  assemble-eq-ok (some a) (some b) (some c) (some d) none url issues r h = absurd (ground arith)

  properties-IsWellFormed :
      (input : Properties) (options : DescriptorValidationOptions) (r : DocumentDescriptor)
      → validate_properties date_parses parse_url input options ≡ ok r
      → IsWellFormed options r
  unfolding validate_properties EachDate
  properties-IsWellFormed input options r h =
      let s1 = read_identity input (codes "issuerId") [] in
      let s2 = read_identity input (codes "documentId") s1.1 in
      let s3 = read_identity input (codes "documentType") s2.1 in
      let r4 = read_string (get_property (codes "issuedAt") input) (codes "issuedAt") s3.1 in
      let s4 = check_date date_parses parse_url r4 in
      let s5 = read_claims (get_property (codes "claims") input) s4.1 in
      let i6 = currency_issues options.require_explicit_currency s5.0 s5.1 in
      let (c7, a, b, c, d, e, u) = assemble-eq-ok s1.0 s2.0 s3.0 s4.0 s5.0 _ _ r h in
      let (c6, url') =
        read_status_url-clean (get_property (codes "statusUrl") input) options.environment i6 c7 in
      let (c5, money) = currency_issues-clean options.require_explicit_currency s5.0 s5.1 c6 in
      let (c4, claims') = read_claims-clean (get_property (codes "claims") input) s4.1 c5 in
      let (c3', issued') = check_date-clean r4.0 r4.1 c4 in
      let c3 =
        read_string-clean (get_property (codes "issuedAt") input) (codes "issuedAt") s3.1 c3' in
      let (c2, kind') = read_identity-clean input (codes "documentType") s2.1 c3 in
      let (c1, document') = read_identity-clean input (codes "documentId") s1.1 c2 in
      let (c0, issuer') = read_identity-clean input (codes "issuerId") [] c1 in
      record {
        issuer = subst EachIdentity a issuer';
        document = subst EachIdentity b document';
        kind = subst EachIdentity c kind';
        issued = subst EachDate d issued';
        claims_good = subst EachClaims e claims';
        currency = subst (HasCurrency options.require_explicit_currency) e money;
        url = subst (HasGoodUrl options.environment) u url';
      }

  -- A descriptor that the validation lets pass has trimmed, non-empty identities, an RFC 3339
  -- date, trimmed, non-empty claim keys with strings, Booleans or safe integers, a status URL (if
  -- any) that parses, has no credentials and uses HTTPS (or HTTP to a local host in development),
  -- and, under the strict rule, no currency issue.
  pub validate_descriptor-IsWellFormed :
      (input : Unknown) (options : DescriptorValidationOptions) (d : DocumentDescriptor)
      → validate_descriptor date_parses parse_url input options ≡ ok d
      → IsWellFormed options d
  unfolding validate_descriptor
  validate_descriptor-IsWellFormed (object input) options d h =
      properties-IsWellFormed input options d h
  validate_descriptor-IsWellFormed undefined options d h = absurd (ground arith)
  validate_descriptor-IsWellFormed (string s) options d h = absurd (ground arith)
  validate_descriptor-IsWellFormed (boolean b) options d h = absurd (ground arith)
  validate_descriptor-IsWellFormed (number z) options d h = absurd (ground arith)
  validate_descriptor-IsWellFormed other options d h = absurd (ground arith)
