-- ===== src/Core/Descriptor/Validate.antt =====
-- packages/core/src/validate-descriptor.ts: the date test and validateDescriptor.
use credaryn.Core.Document.{Claims, DocumentDescriptor}
use credaryn.Base.{
  ok, err, ◌==◌, [], false, Result, ◌&&◌, none, if◌then◌else◌, true, ◌||◌, leb, some, ◌∷◌, ℕ,
  Option, Bool,
}
use credaryn.Base.Text.{ends_with, starts_with, list_eq, trim, codes, Text}
use credaryn.Core.Descriptor.{
  is_local_host, has_good_protocol, url_issues, finish_url, first_minor_issue, minor_keys,
  get_claim, money_currency_issues, some_path, set_claim, claim_value, is_bad_key,
  read_claim_entries, check_identity, undefined, currency_issues, string_required, read_claims,
  check_url, get_property, object_required, url_invalid, read_string, string, has_no_issues,
  read_identity, object, push, rfc3339_required, DescriptorEnvironment, DescriptorValidationOptions,
  Issues, Unknown, Properties, IssueCode, Url,
}

abbrev is_digit : ℕ → Bool
is_digit c = leb b'0' c && leb c b'9'

-- What follows a prefix of the form that the pattern gives, where `d` stands for a digit.
unfoldable pub match_prefix : Text → Text → Option Text
match_prefix [] s = some s
match_prefix (p ∷ pattern) [] = none
match_prefix (p ∷ pattern) (c ∷ s) =
    if (if p == b'd' then is_digit c else c == p) then match_prefix pattern s else none

unfoldable pub skip_digits : Text → Text
skip_digits [] = []
skip_digits (c ∷ s) = if is_digit c then skip_digits s else c ∷ s

-- `(?:\.\d+)?`: a dot that no digit follows is left.
unfoldable pub skip_fraction : Text → Text
skip_fraction (c ∷ d ∷ s) = if c == b'.' && is_digit d then skip_digits (d ∷ s) else c ∷ d ∷ s
skip_fraction s = s

abbrev is_end : Option Text → Bool
is_end (some []) = true
is_end _ = false

unfoldable pub is_zone : Text → Bool
is_zone s =
    is_end (match_prefix (codes "Z") s)
    || is_end (match_prefix (codes "+dd:dd") s)
    || is_end (match_prefix (codes "-dd:dd") s)

unfoldable pub has_date_time_form : Text → Bool
has_date_time_form s = elim (match_prefix (codes "dddd-dd-ddTdd:dd:dd") s) [
  | none ↦ false
  | some rest ↦ is_zone (skip_fraction rest)
]

abbrev pub optional_issue : Bool → Text → IssueCode → Issues → Issues
optional_issue true path code issues = issues
optional_issue false path code issues = push issues path code

module _ (date_parses : Text → Bool) (parse_url : Text → Option Url) where
  unfoldable pub is_rfc3339 : Text → Bool
  is_rfc3339 s = has_date_time_form s && date_parses s

  unfoldable pub check_date : Option Text × Issues → Option Text × Issues
  check_date (none, issues) = (none, issues)
  check_date (some s, issues) =
      (some s, optional_issue (is_rfc3339 s) (codes "issuedAt") rfc3339_required issues)

  unfoldable pub read_status_url : Unknown → DescriptorEnvironment → Issues → Option Text × Issues
  read_status_url undefined environment issues = (none, issues)
  read_status_url (string s) environment issues = elim (parse_url s) [
    | none ↦ (none, push issues (codes "statusUrl") url_invalid)
    | some url ↦ check_url environment s url issues
  ]
  read_status_url _ environment issues = (none, push issues (codes "statusUrl") string_required)

  -- The last test of `validateDescriptor`: the parts that were read, without any issue.
  unfoldable pub assemble :
      Option Text
      → Option Text
      → Option Text
      → Option Text
      → Option Claims
      → Option Text
      → Issues
      → Result Issues DocumentDescriptor
  assemble (some a) (some b) (some c) (some d) (some e) url issues =
      if has_no_issues issues
      then ok (record {
        issuer_id = a;
        document_id = b;
        document_type = c;
        issued_at = d;
        claims = e;
        status_url = url;
      })
      else err issues
  assemble _ _ _ _ _ _ issues = err issues

  unfoldable pub validate_properties :
      Properties → DescriptorValidationOptions → Result Issues DocumentDescriptor
  validate_properties input options =
      let (issuer, i1) = read_identity input (codes "issuerId") [] in
      let (document, i2) = read_identity input (codes "documentId") i1 in
      let (kind, i3) = read_identity input (codes "documentType") i2 in
      let (issued, i4) =
        check_date (read_string (get_property (codes "issuedAt") input) (codes "issuedAt") i3) in
      let (claims, i5) = read_claims (get_property (codes "claims") input) i4 in
      let i6 = currency_issues options.require_explicit_currency claims i5 in
      let (url, i7) =
        read_status_url (get_property (codes "statusUrl") input) options.environment i6 in
      assemble issuer document kind issued claims url i7

  unfoldable pub validate_descriptor :
      Unknown → DescriptorValidationOptions → Result Issues DocumentDescriptor
  validate_descriptor (object input) options = validate_properties input options
  validate_descriptor _ options = err (push [] (codes "$") object_required)

-- The whole validation, for a run of it.
unfoldable pub validator : Unit {0}
unfolding validate_descriptor validate_properties read_identity check_identity read_string
    get_property check_date is_rfc3339 has_date_time_form match_prefix skip_fraction skip_digits
    is_zone read_claims read_claim_entries is_bad_key claim_value set_claim some_path
    currency_issues money_currency_issues get_claim minor_keys ends_with first_minor_issue
    read_status_url check_url finish_url url_issues has_good_protocol is_local_host assemble trim
    list_eq starts_with
validator = tt
