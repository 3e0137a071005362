-- ===== src/Paper/Seal/Validated.antt =====
-- decode.ts: the validation of the profile that a seal carries.
use credaryn.Core.Descriptor.{Properties, Unknown, currency_issues, read_claims, read_string}
use credaryn.Core.Document.{ClaimValue, Claims, DocumentDescriptor}
use credaryn.Core.Descriptor.{
  production, read_identity, some_path, get_property, finish_url, url_issues, check_url, set_claim,
  Url, is_bad_key, check_identity, claim_value, read_claim_entries, Issues,
}
use credaryn.Paper.Seal.{PaperSealPayload}
use credaryn.Base.Text.{codes, list_eq, Text}
use credaryn.Core.Descriptor.Clean.{IsClaim, IsIdentity, IsSafe}
use credaryn.Paper.Seal.Decode.{
  status_property, default_options, profile_object, unknown_claim, claim_properties,
}
use credaryn.Base.{
  true, none, append_assoc, ap, ◌∙◌, ◌∷◌, append-nil, ◌++◌, [], ok, All, refl, false, some, ◌≡◌,
  Option, Bool,
}
use credaryn.Core.Descriptor.Validate.{
  is_rfc3339, read_status_url, check_date, assemble, validate_properties, validate_descriptor,
}
use credaryn.Core.Descriptor.Accepted.{HasGoodUrl, IsWellFormed}

abbrev pub descriptor_of : PaperSealPayload → DocumentDescriptor
descriptor_of profile = record {
  issuer_id = profile.issuer_id;
  document_id = profile.document_id;
  document_type = profile.document_type;
  issued_at = profile.issued_at;
  claims = profile.claims;
  status_url = profile.status_url;
}

-- No claim has the key that JavaScript objects do not store.
abbrev pub IsStorable : Text × ClaimValue → Type 0
IsStorable (key, claim) = list_eq key (codes "__proto__") ≡ false

identity_read :
    (field s : Text) (issues : Issues)
    → IsIdentity s
    → check_identity field (some s, issues) ≡ (some s, issues)
unfolding check_identity IsIdentity
identity_read field s issues (filled, trimmed) = rw (filled, trimmed) refl

claim_read : (claim : ClaimValue) → IsSafe claim → claim_value (unknown_claim claim) ≡ some claim
unfolding claim_value
claim_read (ClaimValue.string s) h = refl
claim_read (ClaimValue.boolean b) h = refl
claim_read (ClaimValue.number z) h = rw h refl

claims_read :
    (claims before : Claims) (issues : Issues)
    → All IsClaim claims
    → All IsStorable claims
    → read_claim_entries (claim_properties claims) before issues ≡ (before ++ claims, issues)
unfolding read_claim_entries claim_properties is_bad_key set_claim IsIdentity
claims_read [] before issues c s = rw append-nil refl
claims_read ((key, claim) ∷ claims) before issues (((filled, trimmed), safe), cs) (s, ss) =
    rw (filled, trimmed, claim_read claim safe, s)
      (claims_read claims (before ++ (key, claim) ∷ []) issues cs ss
        ∙ ap (λ (l : Claims). (l, issues)) (append_assoc before ((key, claim) ∷ []) claims))

module _ (date_parses : Text → Bool) (parse_url : Text → Option Url) where
  -- Readers that report nothing make up a descriptor.
  validated :
      (input : Properties) (d : DocumentDescriptor)
      → read_identity input (codes "issuerId") [] ≡ (some d.issuer_id, [])
      → read_identity input (codes "documentId") [] ≡ (some d.document_id, [])
      → read_identity input (codes "documentType") [] ≡ (some d.document_type, [])
      → read_string (get_property (codes "issuedAt") input) (codes "issuedAt") []
        ≡ (some d.issued_at, [])
      → is_rfc3339 date_parses parse_url d.issued_at ≡ true
      → read_claims (get_property (codes "claims") input) [] ≡ (some d.claims, [])
      → read_status_url date_parses parse_url (get_property (codes "statusUrl") input) production []
        ≡ (d.status_url, [])
      → validate_properties date_parses parse_url input default_options ≡ ok d
  unfolding validate_properties check_date assemble currency_issues
  validated input d a b c e f g h = rw (a, b, c, e, f, g, h) refl

  url_read :
      (o : Option Text)
      → HasGoodUrl date_parses parse_url production o
      → read_status_url date_parses parse_url
          (get_property (codes "statusUrl") (status_property o))
          production
          []
        ≡ (o, [])
  unfolding read_status_url check_url url_issues finish_url some_path get_property list_eq
  url_read none h = refl
  url_read (some s) (url, e, p, u, w) = rw (e, p, u, w) refl

  claims_field_read :
      (claims : Claims)
      → All IsClaim claims
      → All IsStorable claims
      → read_claims (Unknown.object (claim_properties claims)) [] ≡ (some claims, [])
  unfolding read_claims some_path
  claims_field_read claims c s = rw (claims_read claims [] [] c s) refl

  -- A profile that is well formed as a descriptor, and has no claim named `__proto__`, passes the
  -- validation of the decoder, which gives back its descriptor.
  pub validate_descriptor-profile_object :
      (profile : PaperSealPayload)
      → IsWellFormed date_parses parse_url default_options (descriptor_of profile)
      → All IsStorable profile.claims
      → validate_descriptor date_parses parse_url (profile_object profile) default_options
        ≡ ok (descriptor_of profile)
  unfolding validate_descriptor profile_object read_identity read_string get_property list_eq
  validate_descriptor-profile_object profile w s =
      validated _ (descriptor_of profile)
        (identity_read (codes "issuerId") profile.issuer_id [] w.issuer)
        (identity_read (codes "documentId") profile.document_id [] w.document)
        (identity_read (codes "documentType") profile.document_type [] w.kind) refl w.issued
        (claims_field_read profile.claims w.claims_good s) (url_read profile.status_url w.url)
