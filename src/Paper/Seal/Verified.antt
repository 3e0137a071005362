-- ===== src/Paper/Seal/Verified.antt =====
-- decode.ts and verify.ts: what a decoded seal is made of, and what a trusted one has passed.
use credaryn.Core.Document.{VerificationResult, CryptographicValidity, TrustDecision, Verdict}
use credaryn.Base.Text.{codes, Bytes, starts_with-split, starts_with, Text}
use credaryn.Base.{
  none, ◌∙◌, sym, ap, Result-cases, Result, false, some, refl, map_err-eq-ok, ok_injective, subst,
  arith, inr, inl, Bool-cases, map_err, length, ltb, not, refuse_if, drop, >>=-eq-ok, ◌++◌, true,
  ok, ◌≡◌, Option, Bool,
}
use credaryn.Core.Descriptor.{Url}
use credaryn.Paper.Seal.Decode.{
  SealDecodeError, cose_invalid, base45_invalid, transport_too_long, max_transport_bytes, no_prefix,
  decode_profile_payload, decode_transport_bytes, SealInput, DecodedPaperSeal, decode_paper_seal,
}
use credaryn.Paper.Seal.{PaperSealPayload, paper_profile_prefix}
use credaryn.Paper.Base45.{encode_base45, decode_base45}
use credaryn.Paper.Cose.{CoseSign1Parts, decode_cose_sign1}
use credaryn.Base.Utf8.{utf8_encode}
use credaryn.Paper.Seal.Verify.{
  paper_input, cose_options, verify_paper_seal, has_other_fingerprint, is_unexpected, same_text,
  PaperVerificationOptions, refused_seal, create_paper_result, judge_seal, checked_result,
}
use credaryn.Paper.Base45.RoundTrip.{encode_base45-decode_base45}
use credaryn.Core.Verdict.{create_verification_result}
use credaryn.Paper.Cose.Verify.{verify_cose_sign1, CoseVerificationOptions, CoseVerificationResult}
use credaryn.Core.Verdict.Laws.{create_verification_result-valid_trusted_iff}
use credaryn.Paper.Cose.Signed.{verify_cose_sign1-valid_iff, IsAccepted}

module _ (date_parses : Text → Bool) (parse_url : Text → Option Url) where
  -- The parts of a decoded seal belong together.
  pub record IsSeal (d : DecodedPaperSeal) : Type 0 where
    pub carried :
        (text : Text) × (d.transport ≡ paper_profile_prefix ++ text)
        × (encode_base45 d.cose ≡ ok text)
    pub parts_read : decode_cose_sign1 d.cose ≡ ok d.cose_parts
    pub same_payload : d.payload ≡ d.cose_parts.payload
    pub profile_read : decode_profile_payload date_parses parse_url d.payload ≡ ok d.profile

  -- A seal that is decoded has a transport text of `CRD1:` and the Base45 text of its object,
  -- whose payload is the one that the profile is read from.
  pub decode_paper_seal-IsSeal :
      (input : SealInput) (d : DecodedPaperSeal)
      → decode_paper_seal date_parses parse_url input ≡ ok d
      → IsSeal d
  unfolding decode_paper_seal
  decode_paper_seal-IsSeal input d h =
      let (content, p, h1) = >>=-eq-ok (decode_transport_bytes input) _ h in
      let (u, g, h2) =
        >>=-eq-ok (refuse_if (not (starts_with content paper_profile_prefix)) no_prefix) _ h1 in
      let (v, k, h3) =
        >>=-eq-ok
          (refuse_if (ltb max_transport_bytes (length (utf8_encode content))) transport_too_long) _
          h2 in
      let (object, q, h4) =
        >>=-eq-ok (map_err base45_invalid (decode_base45 (drop 5 content))) _ h3 in
      let (parts, r, h5) = >>=-eq-ok (map_err cose_invalid (decode_cose_sign1 object)) _ h4 in
      let (read, t, h6) =
        >>=-eq-ok (decode_profile_payload date_parses parse_url parts.payload) _ h5 in
      let prefixed : starts_with content paper_profile_prefix ≡ true =
        elim (Bool-cases (starts_with content paper_profile_prefix)) [
          | inl a ↦ a
          | inr a ↦ absurd (ground arith)
        ] in
      subst IsSeal (ok_injective _ d h6) (record {
        carried = (
          drop 5 content,
          starts_with-split content paper_profile_prefix prefixed,
          (encode_base45-decode_base45 _ _ (map_err-eq-ok base45_invalid _ q)).0,
        );
        parts_read = map_err-eq-ok cose_invalid _ r;
        same_payload = refl;
        profile_read = t;
      })

-- The key name of the object, the expected document and the fingerprint agree with the profile.
abbrev pub Agrees : PaperSealPayload → PaperVerificationOptions → CoseVerificationResult → Type 0
Agrees profile options cose =
    (same_text cose.key_id (some profile.key_id) ≡ true)
    × (is_unexpected options.expected_descriptor profile ≡ false)
    × (has_other_fingerprint profile cose ≡ false)

refused-not_trusted :
    (profile : PaperSealPayload) (c m : Text)
    → (refused_seal profile c m).verdict ≡ Verdict.valid_trusted
    → ⊥
unfolding create_paper_result
refused-not_trusted profile c m h =
    let (_, v, _) = (create_verification_result-valid_trusted_iff _).0 h in absurd (ground arith)

unreadable-not_trusted :
    (c m : Text)
    → (create_verification_result
        (paper_input CryptographicValidity.invalid TrustDecision.missing none c m)).verdict
      ≡ Verdict.valid_trusted
    → ⊥
unreadable-not_trusted c m h =
    let (_, v, _) =
      (create_verification_result-valid_trusted_iff
          (paper_input CryptographicValidity.invalid TrustDecision.missing none c m)).0
        h in
    absurd (ground arith)

judge-Agrees :
    (profile : PaperSealPayload) (options : PaperVerificationOptions)
    (cose : CoseVerificationResult)
    → (judge_seal profile options cose).verdict ≡ Verdict.valid_trusted
    → Agrees profile options cose
      × (judge_seal profile options cose ≡ checked_result profile options cose)
unfolding judge_seal
judge-Agrees profile options cose h =
    elim (Bool-cases (same_text cose.key_id (some profile.key_id))) [
      | inr a ↦ absurd (refused-not_trusted profile _ _ (rw a at h))
      | inl a ↦ elim (Bool-cases (is_unexpected options.expected_descriptor profile)) [
        | inl b ↦ absurd (refused-not_trusted profile _ _ (rw (a, b) at h))
        | inr b ↦ elim (Bool-cases (has_other_fingerprint profile cose)) [
          | inl c ↦ absurd (refused-not_trusted profile _ _ (rw (a, b, c) at h))
          | inr c ↦ ((a, b, c), rw (a, b, c) refl)
        ]
      ]
    ]

checked-trusted :
    (profile : PaperSealPayload) (options : PaperVerificationOptions)
    (cose : CoseVerificationResult)
    → (checked_result profile options cose).verdict ≡ Verdict.valid_trusted
    → (cose.cryptographic_validity ≡ CryptographicValidity.valid)
      × (cose.trust_decision ≡ TrustDecision.trusted)
unfolding checked_result create_paper_result
checked-trusted profile options cose h =
    let (_, v, t) = (create_verification_result-valid_trusted_iff _).0 h in (v, t)

checked-claims :
    (profile : PaperSealPayload) (options : PaperVerificationOptions)
    (cose : CoseVerificationResult)
    → cose.cryptographic_validity ≡ CryptographicValidity.valid
    → ((checked_result profile options cose).signed_claims ≡ some profile.claims)
      × ((checked_result profile options cose).issuer_id ≡ some profile.issuer_id)
      × ((checked_result profile options cose).document_id ≡ some profile.document_id)
unfolding checked_result create_paper_result create_verification_result
checked-claims profile options cose v = (rw v refl, refl, refl)

module _ (date_parses : Text → Bool) (parse_url : Text → Option Url)
    (check_signature : Bytes → Bytes → Bytes → Result (Unit {0}) Bool)
    (message_of : SealDecodeError → Text) where
  -- The seal decodes, its object is accepted with a trusted key over the very payload that the
  -- profile is read from, and the result reports that profile.
  pub record IsVerified (input : SealInput) (options : PaperVerificationOptions)
      (r : VerificationResult) : Type 0 where
    pub seal : DecodedPaperSeal
    pub cose : CoseVerificationResult
    pub decoded : decode_paper_seal date_parses parse_url input ≡ ok seal
    pub well_formed : IsSeal date_parses parse_url seal
    pub accepted : IsAccepted check_signature seal.cose (cose_options seal.profile options) cose
    pub trusted : cose.trust_decision ≡ TrustDecision.trusted
    pub signed : cose.payload ≡ seal.payload
    pub agrees : Agrees seal.profile options cose
    pub claims : r.signed_claims ≡ some seal.profile.claims
    pub issuer : r.issuer_id ≡ some seal.profile.issuer_id
    pub document : r.document_id ≡ some seal.profile.document_id

  payload-accepted :
      (d : DecodedPaperSeal) (options : CoseVerificationOptions) (c : CoseVerificationResult)
      → IsSeal date_parses parse_url d
      → IsAccepted check_signature d.cose options c
      → c.payload ≡ d.payload
  payload-accepted d options c s a =
      let same = ok_injective _ _ (sym a.decoded ∙ s.parts_read) in
      ap (λ (x : CoseVerificationResult). x.payload) a.result
      ∙ (ap (λ (x : CoseSign1Parts). x.payload) same ∙ sym s.same_payload)

  decoded-IsVerified :
      (input : SealInput) (options : PaperVerificationOptions) (d : DecodedPaperSeal)
      (c : CoseVerificationResult) (r : VerificationResult)
      → decode_paper_seal date_parses parse_url input ≡ ok d
      → verify_cose_sign1 check_signature d.cose (cose_options d.profile options) ≡ ok c
      → judge_seal d.profile options c ≡ r
      → r.verdict ≡ Verdict.valid_trusted
      → IsVerified input options r
  decoded-IsVerified input options d c r e v j h =
      let (a, same) = judge-Agrees d.profile options c (rw j h) in
      let result : checked_result d.profile options c ≡ r = sym same ∙ j in
      let (valid, t) = checked-trusted d.profile options c (rw result h) in
      let (claims', issuer', document') = checked-claims d.profile options c valid in
      let s = decode_paper_seal-IsSeal date_parses parse_url input d e in
      let accepted' =
        (verify_cose_sign1-valid_iff check_signature d.cose (cose_options d.profile options) c).0
          (v, valid) in
      record {
        seal = d;
        cose = c;
        decoded = e;
        well_formed = s;
        accepted = accepted';
        trusted = t;
        signed = payload-accepted d (cose_options d.profile options) c s accepted';
        agrees = a;
        claims = rw result at claims';
        issuer = rw result at issuer';
        document = rw result at document';
      }

  -- If the verification of a paper seal returns VALID_TRUSTED, then the seal decodes, its object
  -- is accepted by the verification of COSE objects with a key that the trust store trusts, the
  -- signature is over the payload that the profile was read from, the key name, the expected
  -- document and the certificate fingerprint agree with the profile, and the result reports the
  -- claims, the issuer and the document of the profile.
  pub verify_paper_seal-IsVerified :
      (input : SealInput) (options : PaperVerificationOptions) (r : VerificationResult)
      → verify_paper_seal date_parses parse_url check_signature message_of input options ≡ ok r
      → r.verdict ≡ Verdict.valid_trusted
      → IsVerified input options r
  unfolding verify_paper_seal create_verification_result
  verify_paper_seal-IsVerified input options r h v =
      elim (Result-cases (decode_paper_seal date_parses parse_url input)) [
        | inr (e, p) ↦ absurd (
            let same = ok_injective _ _ (rw (verify_paper_seal, p) at h) in
            unreadable-not_trusted (codes "PAPER_INPUT_INVALID") (message_of e)
              (ap (λ (x : VerificationResult). x.verdict) same ∙ v))
        | inl (d, p) ↦
            let (c, q, j) =
              >>=-eq-ok (verify_cose_sign1 check_signature d.cose (cose_options d.profile options))
                _ (rw (verify_paper_seal, p) at h) in
            decoded-IsVerified input options d c r p q (ok_injective _ _ j) v
      ]
