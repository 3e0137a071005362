-- ===== src/Verifier/TrustStore/Loaded.antt =====
-- trust-store.ts: what a bundle that is loaded holds.
use credaryn.Base.{
  ◌∙◌, ◌⊎◌, required, none, inr, Bool-cases, some, subst, false, All, ap, ltb_false→le, arith,
  Option, ok_injective, refl, passed, not, refuse_if, ltb, >>=-eq-ok, err, inl, ◌≤◌, true, ok, ◌+◌,
  Bool, ◌≡◌, Result, ℕ, List, ◌∷◌, [],
}
use credaryn.Core.Json.{nil, get_field, cons, Items, Json, Fields}
use credaryn.Verifier.TrustStore.Bundle.{
  is_bad_fingerprint, text_field, read_key_items, read_keys, key_fingerprint, key_bytes, is_base64,
  key_metadata, non_blank, required_text, TrustStoreLoadError, read_key, file_unreadable,
  max_trust_file_bytes, max_trust_bundle_bytes, measure_file, measure_files, BundleFile,
}
use credaryn.Base.Text.{list_eq→eq, codes, list_eq, is_blank, Bytes, Text}
use credaryn.Core.TrustPolicy.{X509TrustAnchor}
use credaryn.Core.Signer.{es256, SignerKeyInfo}

-- The sizes that the files were measured with, which are within the limit of a file.
abbrev pub IsMeasured : BundleFile → ℕ → Type 0
IsMeasured file size = (file.first_stat ≡ ok (true, size)) × (size ≤ max_trust_file_bytes)

abbrev pub Sizes : List BundleFile → ℕ → Type 0
Sizes [] total = total ≡ 0
Sizes (file ∷ files) total =
    (size : ℕ) × (rest : ℕ) × (IsMeasured file size) × Sizes files rest × (total ≡ size + rest)

measure_file-IsMeasured :
    (stat : Result (Unit {0}) (Bool × ℕ)) (size : ℕ)
    → measure_file stat ≡ ok size
    → (stat ≡ ok (true, size)) × (size ≤ max_trust_file_bytes)
unfolding measure_file
measure_file-IsMeasured (err e) size h = cc
measure_file-IsMeasured (ok (false, n)) size h = cc
measure_file-IsMeasured (ok (true, n)) size h =
    let over = ltb max_trust_file_bytes n in
    let (_, guard, h1) = >>=-eq-ok (refuse_if over file_unreadable) _ h in
    let same = ok_injective n size h1 in
    let small = ltb_false→le max_trust_file_bytes n (passed over file_unreadable guard) in
    (ap (λ k. ok (true, k)) same, subst (λ k. k ≤ max_trust_file_bytes) same small)

pub measure_files-Sizes :
    (total : ℕ) (files : List BundleFile)
    → total ≤ max_trust_bundle_bytes
    → measure_files total files ≡ ok tt
    → (sum : ℕ) × Sizes files sum × (total + sum ≤ max_trust_bundle_bytes)
unfolding measure_files
measure_files-Sizes total [] below h = (0, refl, omega arith)
measure_files-Sizes total (file ∷ files) below h =
    let (size, m, h1) = >>=-eq-ok (measure_file file.first_stat) _ h in
    let over = ltb max_trust_bundle_bytes (total + size) in
    let (_, guard, h2) = >>=-eq-ok (refuse_if over file_unreadable) _ h1 in
    let small =
      ltb_false→le max_trust_bundle_bytes (total + size) (passed over file_unreadable guard) in
    let (rest, sizes, bound) = measure_files-Sizes (total + size) files small h2 in
    (
      size + rest,
      (size, rest, measure_file-IsMeasured file.first_stat size m, sizes, refl),
      omega arith,
    )

-- The object is one of the items.
abbrev pub Holds : Fields → Items → Type 0
Holds fields nil = ⊥
Holds fields (cons item items) = (item ≡ Json.object fields) ⊎ Holds fields items

-- The key is what an entry says, which names ES256 and holds the Base64 text of bytes that the
-- platform takes for a public key.
pub record IsReadFrom (from_base64 : Text → Bytes) (is_public_key : Bytes → Bool) (entry : Fields)
    (key : SignerKeyInfo) : Type 0 where
  pub issuer : text_field "issuerId" entry ≡ some key.issuer_id
  pub name : text_field "keyId" entry ≡ some key.key_id
  pub algorithm : text_field "algorithm" entry ≡ some es256
  pub labelled : key.algorithm ≡ es256
  pub encoded : Text
  pub written : text_field "publicKey" entry ≡ some encoded
  pub is_encoded : is_base64 encoded ≡ true
  pub decoded : key.public_key ≡ from_base64 encoded
  pub accepted : is_public_key key.public_key ≡ true
  pub fingerprint : text_field "certificateFingerprint" entry ≡ key.certificate_fingerprint
  pub not_blank : is_bad_fingerprint (get_field (codes "certificateFingerprint") entry) ≡ false

-- The entries of a value that is a list.
abbrev pub listed_entries : Option Json → Items
listed_entries (some (Json.array items)) = items
listed_entries _ = nil

-- The key is read from one of the entries.
abbrev pub IsLoadedKey : (Text → Bytes) → (Bytes → Bool) → Items → SignerKeyInfo → Type 0
IsLoadedKey from_base64 is_public_key entries key =
    (entry : Fields) × Holds entry entries × IsReadFrom from_base64 is_public_key entry key

abbrev pub IsLoadedAnchor : X509TrustAnchor → Type 0
IsLoadedAnchor anchor =
    (is_blank anchor.issuer_id ≡ false) × (is_blank anchor.certificate_fingerprint ≡ false)

abbrev pub IsLoadedDomain : Text → Type 0
IsLoadedDomain domain = is_blank domain ≡ false

required_text-eq-ok :
    (o : Option Text) (e : TrustStoreLoadError) (s : Text) → required_text o e ≡ ok s → o ≡ some s
required_text-eq-ok none e s h = cc
required_text-eq-ok (some t) e s h = ap some (ok_injective t s h)

pub non_blank-eq-ok :
    (o : Option Text) (e : TrustStoreLoadError) (s : Text)
    → non_blank o e ≡ ok s
    → is_blank s ≡ false
non_blank-eq-ok none e s h = cc
non_blank-eq-ok (some t) e s h = elim (Bool-cases (is_blank t)) [
  | inl blank ↦ let bad : err e ≡ ok s = rw blank at h in cc
  | inr other ↦ subst (λ u. is_blank u ≡ false) (ok_injective t s (rw other at h)) other
]

module _ (from_base64 : Text → Bytes) (is_public_key : Bytes → Bool) where
  read_key-IsReadFrom :
      (index : ℕ) (fields : Fields) (key : SignerKeyInfo)
      → read_key from_base64 is_public_key index fields ≡ ok key
      → IsReadFrom from_base64 is_public_key fields key
  unfolding read_key
  read_key-IsReadFrom index fields key h =
      let e = key_metadata index in
      let (issuer, i, h1) = >>=-eq-ok (required_text (text_field "issuerId" fields) e) _ h in
      let (id, n, h2) = >>=-eq-ok (required_text (text_field "keyId" fields) e) _ h1 in
      let (algorithm, a, h3) = >>=-eq-ok (required_text (text_field "algorithm" fields) e) _ h2 in
      let (_, is_es256, h4) = >>=-eq-ok (refuse_if (not (list_eq algorithm es256)) e) _ h3 in
      let (encoded, p, h5) = >>=-eq-ok (required_text (text_field "publicKey" fields) e) _ h4 in
      let (_, form, h6) = >>=-eq-ok (refuse_if (not (is_base64 encoded)) (key_bytes index)) _ h5 in
      let accepted = is_public_key (from_base64 encoded) in
      let (_, guard, h7) = >>=-eq-ok (refuse_if (not accepted) (key_bytes index)) _ h6 in
      let bad = is_bad_fingerprint (get_field (codes "certificateFingerprint") fields) in
      let (_, print, h8) = >>=-eq-ok (refuse_if bad (key_fingerprint index)) _ h7 in
      let same : algorithm ≡ es256 =
        list_eq→eq algorithm es256 (required (list_eq algorithm es256) e is_es256) in
      subst (IsReadFrom from_base64 is_public_key fields) (ok_injective _ key h8) (record {
        issuer = required_text-eq-ok _ e issuer i;
        name = required_text-eq-ok _ e id n;
        algorithm = required_text-eq-ok _ e algorithm a ∙ ap some same;
        labelled = refl;
        encoded = encoded;
        written = required_text-eq-ok _ e encoded p;
        is_encoded = required (is_base64 encoded) (key_bytes index) form;
        decoded = refl;
        accepted = required accepted (key_bytes index) guard;
        fingerprint = refl;
        not_blank = passed bad (key_fingerprint index) print;
      })

  read_key_items-IsLoaded :
      (index : ℕ) (items all_items : Items) (keys : List SignerKeyInfo)
      → ((entry : Fields) → Holds entry items → Holds entry all_items)
      → read_key_items from_base64 is_public_key index items ≡ ok keys
      → All (IsLoadedKey from_base64 is_public_key all_items) keys
  unfolding read_key_items
  read_key_items-IsLoaded index nil all_items keys within h =
      subst (All (IsLoadedKey from_base64 is_public_key all_items)) (ok_injective [] keys h) tt
  read_key_items-IsLoaded index (cons (Json.object entry) entries) all_items keys within h =
      let (key, k, h1) = >>=-eq-ok (read_key from_base64 is_public_key index entry) _ h in
      let (rest, r, h2) =
        >>=-eq-ok (read_key_items from_base64 is_public_key (index + 1) entries) _ h1 in
      subst (All (IsLoadedKey from_base64 is_public_key all_items))
        (ok_injective (key ∷ rest) keys h2)
        (
          (entry, within entry (inl refl), read_key-IsReadFrom index entry key k),
          read_key_items-IsLoaded (index + 1) entries all_items rest (λ e m. within e (inr m)) r,
        )
  read_key_items-IsLoaded index (cons Json.null entries) all_items keys within h = cc
  read_key_items-IsLoaded index (cons (Json.boolean b) entries) all_items keys within h = cc
  read_key_items-IsLoaded index (cons Json.number entries) all_items keys within h = cc
  read_key_items-IsLoaded index (cons (Json.string s) entries) all_items keys within h = cc
  read_key_items-IsLoaded index (cons (Json.array items) entries) all_items keys within h = cc

  pub read_keys-IsLoaded :
      (value : Option Json) (keys : List SignerKeyInfo)
      → read_keys from_base64 is_public_key value ≡ ok keys
      → All (IsLoadedKey from_base64 is_public_key (listed_entries value)) keys
  unfolding read_keys
  read_keys-IsLoaded none keys h =
      subst (All (IsLoadedKey from_base64 is_public_key nil)) (ok_injective [] keys h) tt
  read_keys-IsLoaded (some (Json.array items)) keys h =
      read_key_items-IsLoaded 0 items items keys (λ e m. m) h
  read_keys-IsLoaded (some Json.null) keys h = cc
  read_keys-IsLoaded (some (Json.boolean b)) keys h = cc
  read_keys-IsLoaded (some Json.number) keys h = cc
  read_keys-IsLoaded (some (Json.string s)) keys h = cc
  read_keys-IsLoaded (some (Json.object fields)) keys h = cc
