-- ===== src/Verifier/TrustStore/Whole.antt =====
-- trust-store.ts: the bundle of all files, as readTrustBundle gives it.
use credaryn.Base.{
  ap, ◌∙◌, inr, err, inl, Option-cases, map_err-eq-ok, map_err, All-weaken, passed, ltb_false→le,
  arith, refuse_if, ◌+◌, ltb, none, some, All-append, ok_injective, ◌≤◌, All, >>=-eq-ok, subst,
  length, ok, ◌≡◌, Bool, List, ℕ, Option, ◌∷◌, [],
}
use mathlib.Core.List.{Mem, mem-cons_self, mem-cons_of_mem}
use credaryn.Core.Json.{as_record, Fields, as_string, get_field, Json, Items, nil, cons}
use credaryn.Verifier.TrustStore.Bundle.{
  not_an_object, file_unreadable, measure_file, measure_files, too_many_files, first_defined,
  domain_invalid, text_field, max_trust_bundle_bytes, anchor_metadata, non_blank, read_keys,
  max_trust_files, read_json_file, read_bundle_file, read_bundle_files, read_anchor_items,
  read_x509_anchors, read_domain_items, read_did_web_domains, BundleFile, read_trust_bundle,
}
use credaryn.Verifier.TrustStore.Loaded.{
  measure_files-Sizes, read_keys-IsLoaded, non_blank-eq-ok, IsLoadedKey, IsLoadedAnchor,
  IsLoadedDomain, Sizes, listed_entries,
}
use credaryn.Base.Text.{codes, Text, Bytes}
use credaryn.Core.TrustPolicy.{X509TrustAnchor}
use credaryn.Verifier.TrustStore.{PolicyTrustStoreConfig}
use credaryn.Core.Signer.{SignerKeyInfo}

read_anchor_items-IsLoaded :
    (index : ℕ) (items : Items) (loaded : List X509TrustAnchor)
    → read_anchor_items index items ≡ ok loaded
    → All IsLoadedAnchor loaded
unfolding read_anchor_items
read_anchor_items-IsLoaded index nil loaded h =
    subst (All IsLoadedAnchor) (ok_injective [] loaded h) tt
read_anchor_items-IsLoaded index (cons (Json.object entry) entries) loaded h =
    let e = anchor_metadata index in
    let (issuer, i, h1) = >>=-eq-ok (non_blank (text_field "issuerId" entry) e) _ h in
    let (print, p, h2) = >>=-eq-ok (non_blank (text_field "certificateFingerprint" entry) e) _ h1 in
    let (rest, r, h3) = >>=-eq-ok (read_anchor_items (index + 1) entries) _ h2 in
    subst (All IsLoadedAnchor) (ok_injective _ loaded h3) (
      (
        non_blank-eq-ok (text_field "issuerId" entry) e issuer i,
        non_blank-eq-ok (text_field "certificateFingerprint" entry) e print p,
      ),
      read_anchor_items-IsLoaded (index + 1) entries rest r,
    )
read_anchor_items-IsLoaded index (cons Json.null entries) loaded h = cc
read_anchor_items-IsLoaded index (cons (Json.boolean b) entries) loaded h = cc
read_anchor_items-IsLoaded index (cons Json.number entries) loaded h = cc
read_anchor_items-IsLoaded index (cons (Json.string s) entries) loaded h = cc
read_anchor_items-IsLoaded index (cons (Json.array items) entries) loaded h = cc

read_x509_anchors-IsLoaded :
    (value : Option Json) (loaded : List X509TrustAnchor)
    → read_x509_anchors value ≡ ok loaded
    → All IsLoadedAnchor loaded
unfolding read_x509_anchors
read_x509_anchors-IsLoaded none loaded h = subst (All IsLoadedAnchor) (ok_injective [] loaded h) tt
read_x509_anchors-IsLoaded (some (Json.array items)) loaded h =
    read_anchor_items-IsLoaded 0 items loaded h
read_x509_anchors-IsLoaded (some Json.null) loaded h = cc
read_x509_anchors-IsLoaded (some (Json.boolean b)) loaded h = cc
read_x509_anchors-IsLoaded (some Json.number) loaded h = cc
read_x509_anchors-IsLoaded (some (Json.string s)) loaded h = cc
read_x509_anchors-IsLoaded (some (Json.object fields)) loaded h = cc

read_domain_items-IsLoaded :
    (index : ℕ) (items : Items) (loaded : List Text)
    → read_domain_items index items ≡ ok loaded
    → All IsLoadedDomain loaded
unfolding read_domain_items
read_domain_items-IsLoaded index nil loaded h =
    subst (All IsLoadedDomain) (ok_injective [] loaded h) tt
read_domain_items-IsLoaded index (cons entry entries) loaded h =
    let (domain, d, h1) =
      >>=-eq-ok (non_blank (as_string (some entry)) (domain_invalid index)) _ h in
    let (rest, r, h2) = >>=-eq-ok (read_domain_items (index + 1) entries) _ h1 in
    subst (All IsLoadedDomain) (ok_injective _ loaded h2) (
      non_blank-eq-ok (as_string (some entry)) (domain_invalid index) domain d,
      read_domain_items-IsLoaded (index + 1) entries rest r,
    )

read_did_web_domains-IsLoaded :
    (value : Option Json) (loaded : List Text)
    → read_did_web_domains value ≡ ok loaded
    → All IsLoadedDomain loaded
unfolding read_did_web_domains
read_did_web_domains-IsLoaded none loaded h =
    subst (All IsLoadedDomain) (ok_injective [] loaded h) tt
read_did_web_domains-IsLoaded (some (Json.array items)) loaded h =
    read_domain_items-IsLoaded 0 items loaded h
read_did_web_domains-IsLoaded (some Json.null) loaded h = cc
read_did_web_domains-IsLoaded (some (Json.boolean b)) loaded h = cc
read_did_web_domains-IsLoaded (some Json.number) loaded h = cc
read_did_web_domains-IsLoaded (some (Json.string s)) loaded h = cc
read_did_web_domains-IsLoaded (some (Json.object fields)) loaded h = cc

module _ (parse_json : Bytes → Option Json) (from_base64 : Text → Bytes)
    (is_public_key : Bytes → Bool) where
  -- The key is read from an entry of the list of keys of one of the files.
  abbrev pub IsKeyOf : List BundleFile → SignerKeyInfo → Type 0
  IsKeyOf files key =
      (file : BundleFile) × (bytes : Bytes) × (parsed : Fields) × Mem file files
      × (file.content ≡ ok bytes)
      × (as_record (parse_json bytes) ≡ some parsed)
      × IsLoadedKey from_base64 is_public_key (listed_entries (get_field (codes "keys") parsed)) key

  abbrev pub IsLoaded : List BundleFile → PolicyTrustStoreConfig → Type 0
  IsLoaded files bundle =
      All (IsKeyOf files) bundle.keys
      × All IsLoadedAnchor bundle.x509_anchors
      × All IsLoadedDomain bundle.did_web_domains

  read_json_file-eq-ok :
      (file : BundleFile) (parsed : Fields)
      → read_json_file parse_json from_base64 is_public_key file ≡ ok parsed
      → (bytes : Bytes) × (file.content ≡ ok bytes) × (as_record (parse_json bytes) ≡ some parsed)
  unfolding read_json_file
  read_json_file-eq-ok file parsed h =
      let (size, _, h1) = >>=-eq-ok (measure_file file.second_stat) _ h in
      let (bytes, b, h2) = >>=-eq-ok (map_err (λ _. file_unreadable) file.content) _ h1 in
      (
        bytes,
        map_err-eq-ok (λ _. file_unreadable) file.content b,
        elim (Option-cases (as_record (parse_json bytes))) [
          | inl n ↦ let bad : err not_an_object ≡ ok parsed = rw n at h2 in cc
          | inr (fields, f) ↦ f ∙ ap some (ok_injective fields parsed (rw f at h2))
        ],
      )

  read_bundle_file-IsLoaded :
      (files : List BundleFile) (file : BundleFile) (bundle : PolicyTrustStoreConfig)
      → Mem file files
      → read_bundle_file parse_json from_base64 is_public_key file ≡ ok bundle
      → IsLoaded files bundle
  unfolding read_bundle_file
  read_bundle_file-IsLoaded files file bundle m h =
      let (parsed, p, h1) =
        >>=-eq-ok (read_json_file parse_json from_base64 is_public_key file) _ h in
      let (bytes, b, parses) = read_json_file-eq-ok file parsed p in
      let (keys, k, h2) =
        >>=-eq-ok (read_keys from_base64 is_public_key (get_field (codes "keys") parsed)) _ h1 in
      let (anchors, a, h3) =
        >>=-eq-ok (read_x509_anchors (get_field (codes "x509Anchors") parsed)) _ h2 in
      let value =
        first_defined (get_field (codes "didWebDomains") parsed)
          (get_field (codes "allowedDidWebDomains") parsed) in
      let (domains, d, h4) = >>=-eq-ok (read_did_web_domains value) _ h3 in
      subst (IsLoaded files) (ok_injective _ bundle h4) (
        All-weaken _ (IsKeyOf files) (λ key l. (file, bytes, parsed, m, b, parses, l)) keys
            (read_keys-IsLoaded from_base64 is_public_key _ keys k),
        read_x509_anchors-IsLoaded _ anchors a,
        read_did_web_domains-IsLoaded value domains d,
      )

  read_bundle_files-IsLoaded :
      (all_files files : List BundleFile) (bundle : PolicyTrustStoreConfig)
      → ((file : BundleFile) → Mem file files → Mem file all_files)
      → read_bundle_files parse_json from_base64 is_public_key files ≡ ok bundle
      → IsLoaded all_files bundle
  unfolding read_bundle_files
  read_bundle_files-IsLoaded all_files [] bundle within h =
      subst (IsLoaded all_files) (ok_injective _ bundle h) (tt, tt, tt)
  read_bundle_files-IsLoaded all_files (file ∷ files) bundle within h =
      let (first, f, h1) =
        >>=-eq-ok (read_bundle_file parse_json from_base64 is_public_key file) _ h in
      let (rest, r, h2) =
        >>=-eq-ok (read_bundle_files parse_json from_base64 is_public_key files) _ h1 in
      let (k, a, d) =
        read_bundle_file-IsLoaded all_files file first (within file mem-cons_self) f in
      let (k', a', d') =
        read_bundle_files-IsLoaded all_files files rest (λ x m. within x (mem-cons_of_mem file m))
          r in
      subst (IsLoaded all_files) (ok_injective _ bundle h2) (
        All-append (IsKeyOf all_files) first.keys rest.keys k k',
        All-append IsLoadedAnchor first.x509_anchors rest.x509_anchors a a',
        All-append IsLoadedDomain first.did_web_domains rest.did_web_domains d d',
      )

  -- If a trust bundle is loaded, then it has 64 files at most, their sizes are within the limit of
  -- a file and their sum within the limit of a bundle; each key is read from an entry of the list
  -- of keys of one of the files, which has its issuer, its name and its fingerprint (one that is
  -- not blank, if any), names the algorithm ES256, and holds the Base64 text of its bytes, which
  -- the platform takes for a public key; the anchors have an issuer and a fingerprint, and the
  -- domains are not blank.
  pub read_trust_bundle-IsLoaded :
      (files : List BundleFile) (bundle : PolicyTrustStoreConfig)
      → read_trust_bundle parse_json from_base64 is_public_key files ≡ ok bundle
      → (length files ≤ max_trust_files)
        × ((sum : ℕ) × Sizes files sum × (sum ≤ max_trust_bundle_bytes))
        × IsLoaded files bundle
  unfolding read_trust_bundle
  read_trust_bundle-IsLoaded files bundle h =
      let over = ltb max_trust_files (length files) in
      let (_, guard, h1) = >>=-eq-ok (refuse_if over too_many_files) _ h in
      let (_, m, h2) = >>=-eq-ok (measure_files 0 files) _ h1 in
      let (sum, sizes, bound) = measure_files-Sizes 0 files (omega arith) m in
      (
        ltb_false→le max_trust_files (length files) (passed over too_many_files guard),
        (sum, sizes, omega (arith, bound)),
        read_bundle_files-IsLoaded files files bundle (λ file m. m) h2,
      )
