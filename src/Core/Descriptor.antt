-- ===== src/Core/Descriptor.antt =====
-- packages/core/src/validate-descriptor.ts: validateDescriptor. `Date.parse` and the `URL` parser are
-- parameters. The list of issues is passed on and returned; the message of an issue follows from
-- its path and its code, and is left out.
pub mod Validate
pub mod Clean
pub mod Accepted
use credaryn.Core.Document.{ClaimValue, Claims}
use credaryn.Base.Text.{ends_with, trim, starts_with, list_eq, Text, codes}
use credaryn.Base.{
  ◌-◌, ◌||◌, ◌==◌, drop, ℤ, ◌++◌, true, none, some, length, false, [], not, leb, is_safe_integer,
  ◌∷◌, ◌&&◌, List, Bool, Option, if◌then◌else◌, ℕ,
}

-- A value of unknown type. `object` is a plain object with its own properties, `other` what is
-- neither undefined, a string, a Boolean, an integral number nor a plain object.
mutual
  pub data Unknown : Type 0 where
    undefined : Unknown
    string : Text → Unknown
    boolean : Bool → Unknown
    number : ℤ → Unknown
    other : Unknown
    object : Properties → Unknown

  pub data Properties : Type 0 where
    no_more : Properties
    property : Text → Unknown → Properties → Properties

unfoldable pub get_property : Text → Properties → Unknown
get_property name no_more = undefined
get_property name (property key value others) =
    if list_eq key name then value else get_property name others

pub data IssueCode : Type 0 where
  object_required required string_required non_empty_required : IssueCode
  surrounding_whitespace rfc3339_required flat_map_required claim_key_invalid : IssueCode
  claim_value_unsupported url_invalid https_required credentials_forbidden : IssueCode
  currency_invalid currency_required : IssueCode

pub record DescriptorValidationIssue : Type 0 where
  pub path : Text
  pub code : IssueCode

abbrev pub Issues : Type 0
Issues = List DescriptorValidationIssue

pub data DescriptorEnvironment : Type 0 where
  production development : DescriptorEnvironment

pub record DescriptorValidationOptions : Type 0 where
  pub environment : DescriptorEnvironment
  pub require_explicit_currency : Bool

pub record Url : Type 0 where
  pub protocol : Text
  pub hostname : Text
  pub username : Text
  pub password : Text
  pub port : Text
  pub search : Text
  pub hash : Text
  pub href : Text

abbrev pub push : Issues → Text → IssueCode → Issues
push issues p c = issues ++ (record { path = p; code = c }) ∷ []

abbrev pub has_no_issues : Issues → Bool
has_no_issues [] = true
has_no_issues (i ∷ issues) = false

unfoldable pub read_string : Unknown → Text → Issues → Option Text × Issues
read_string undefined path issues = (none, push issues path required)
read_string (string s) path issues = (some s, issues)
read_string _ path issues = (none, push issues path string_required)

-- `readIdentity` behind its call of `readString`.
unfoldable pub check_identity : Text → Option Text × Issues → Option Text × Issues
check_identity field (none, issues) = (none, issues)
check_identity field (some s, issues) =
    if length (trim s) == 0
    then (none, push issues field non_empty_required)
    else if not (list_eq s (trim s))
    then (none, push issues field surrounding_whitespace)
    else (some s, issues)

unfoldable pub read_identity : Properties → Text → Issues → Option Text × Issues
read_identity input field issues =
    check_identity field (read_string (get_property field input) field issues)

-- `isClaimValue` with the value that it lets pass.
unfoldable pub claim_value : Unknown → Option ClaimValue
claim_value (string s) = some (ClaimValue.string s)
claim_value (boolean b) = some (ClaimValue.boolean b)
claim_value (number z) = if is_safe_integer z then some (ClaimValue.number z) else none
claim_value _ = none

-- `claims[key] = claim` on an object with other keys; the key `__proto__` is no property.
unfoldable pub set_claim : Text → ClaimValue → Claims → Claims
set_claim key claim claims =
    if list_eq key (codes "__proto__") then claims else claims ++ (key, claim) ∷ []

abbrev pub claim_path : Text → Text
claim_path key = codes "claims." ++ key

unfoldable pub is_bad_key : Text → Bool
is_bad_key key = length (trim key) == 0 || not (list_eq key (trim key))

-- The loop of `readClaims`.
unfoldable pub read_claim_entries : Properties → Claims → Issues → Claims × Issues
read_claim_entries no_more claims issues = (claims, issues)
read_claim_entries (property key value others) claims issues =
    if is_bad_key key
    then read_claim_entries others claims (push issues (claim_path key) claim_key_invalid)
    else elim (claim_value value) [
      | none ↦
          read_claim_entries others claims (push issues (claim_path key) claim_value_unsupported)
      | some claim ↦ read_claim_entries others (set_claim key claim claims) issues
    ]

unfoldable pub some_path : (Text → Bool) → Issues → Bool
some_path p [] = false
some_path p (i ∷ issues) = p i.path || some_path p issues

unfoldable pub read_claims : Unknown → Issues → Option Claims × Issues
read_claims (object entries) issues =
    let (claims, issues') = read_claim_entries entries [] issues in
    if some_path (λ path. starts_with path (codes "claims.")) issues'
    then (none, issues')
    else (some claims, issues')
read_claims _ issues = (none, push issues (codes "claims") flat_map_required)

abbrev is_development : DescriptorEnvironment → Bool
is_development production = false
is_development development = true

unfoldable pub is_local_host : Text → Bool
is_local_host hostname =
    list_eq hostname (codes "localhost")
    || list_eq hostname (codes "127.0.0.1")
    || list_eq hostname (codes "[::1]")
    || list_eq hostname (codes "::1")

unfoldable pub has_good_protocol : DescriptorEnvironment → Url → Bool
has_good_protocol environment url =
    list_eq url.protocol (codes "https:")
    || is_development environment
      && (list_eq url.protocol (codes "http:") && is_local_host url.hostname)

abbrev pub has_credentials : Url → Bool
has_credentials url = not (length url.username == 0) || not (length url.password == 0)

-- The two tests of a parsed status URL.
unfoldable pub url_issues : DescriptorEnvironment → Url → Issues → Issues
url_issues environment url issues =
    let issues' =
      if has_good_protocol environment url
      then issues
      else push issues (codes "statusUrl") https_required in
    if has_credentials url then push issues' (codes "statusUrl") credentials_forbidden else issues'

-- The last return of `readStatusUrl`.
unfoldable pub finish_url : Text → Issues → Option Text × Issues
finish_url value issues =
    if some_path (λ path. list_eq path (codes "statusUrl")) issues
    then (none, issues)
    else (some value, issues)

-- `readStatusUrl` behind the parser.
unfoldable pub check_url : DescriptorEnvironment → Text → Url → Issues → Option Text × Issues
check_url environment value url issues = finish_url value (url_issues environment url issues)

-- `claims[key]` where the key is a property of the object itself.
unfoldable pub get_claim : Text → Claims → Option ClaimValue
get_claim name [] = none
get_claim name ((key, claim) ∷ claims) =
    if list_eq key name then some claim else get_claim name claims

abbrev is_upper : ℕ → Bool
is_upper c = leb b'A' c && leb c b'Z'

abbrev pub is_currency_code : Option ClaimValue → Bool
is_currency_code (some (ClaimValue.string (a ∷ b ∷ c ∷ []))) =
    is_upper a && is_upper b && is_upper c
is_currency_code _ = false

abbrev is_number : ClaimValue → Bool
is_number (ClaimValue.number z) = is_safe_integer z
is_number _ = false

unfoldable pub minor_keys : Claims → List Text
minor_keys [] = []
minor_keys ((key, claim) ∷ claims) =
    let rest = minor_keys claims in
    if ends_with key (codes "Minor") && is_number claim then key ∷ rest else rest

abbrev is_some_claim : Option ClaimValue → Bool
is_some_claim none = false
is_some_claim (some c) = true

unfoldable pub first_minor_issue : List Text → Issues
first_minor_issue [] = []
first_minor_issue (key ∷ keys) = push [] (claim_path key) currency_required

unfoldable pub money_currency_issues : Claims → Issues
money_currency_issues claims =
    let currency = get_claim (codes "currency") claims in
    if is_some_claim currency && not (is_currency_code currency)
    then push [] (codes "claims.currency") currency_invalid
    else if is_currency_code currency
    then []
    else first_minor_issue (minor_keys claims)

unfoldable pub currency_issues : Bool → Option Claims → Issues → Issues
currency_issues true (some claims) issues = issues ++ money_currency_issues claims
currency_issues _ _ issues = issues
