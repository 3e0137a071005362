-- ===== src/Verifier/Input/Detected.antt =====
-- verify-input.ts: what detectInput says of an input.
use credaryn.Verifier.Input.{
  is_other_kind, unknown_input, input_too_large, max_paper_text_bytes, normalize_content_type,
  ambiguous_input, detect_requested, detect_unlabelled, detect_input, paper_image, pdf, png_magic,
  paper_text, maximum_of_kind, pdf_magic, InputError, is_text_type, same_kind, maximum_of_type,
  DetectedInputKind, read_text, detect_magic, confirm, content_type_kind,
}
use credaryn.Base.{
  passed, ◌∙◌, ltb_false→le, ltb, refuse_if, >>=-eq-ok, ◌≤◌, false, length, refl, sym, ok_injective,
  inr, ap, arith, some_injective, Option-cases, subst, inl, none, true, ok, Bool-cases, some, ◌≡◌,
  Option,
}
use credaryn.Base.Text.{trim, list_eq→eq, codes, list_eq, starts_with, Bytes, Text}
use credaryn.Base.Utf8.{utf8_decode}

-- The input has the leading bytes of the kind, or is text that starts with `CRD1:` once trimmed.
abbrev pub IsOfKind : DetectedInputKind → Bytes → Type 0
IsOfKind pdf input = starts_with input pdf_magic ≡ true
IsOfKind paper_image input = starts_with input png_magic ≡ true
IsOfKind paper_text input =
    (s : Text) × (utf8_decode input ≡ some s) × (starts_with (trim s) (codes "CRD1:") ≡ true)

abbrev pub AgreesWith : Option Text → DetectedInputKind → Type 0
AgreesWith none kind = Unit
AgreesWith (some content_type) kind = content_type_kind content_type ≡ some kind

same_kind→eq : (a b : DetectedInputKind) → same_kind a b ≡ true → a ≡ b
same_kind→eq pdf pdf h = refl
same_kind→eq paper_text paper_text h = refl
same_kind→eq paper_image paper_image h = refl
same_kind→eq pdf paper_text h = cc
same_kind→eq pdf paper_image h = cc
same_kind→eq paper_text pdf h = cc
same_kind→eq paper_text paper_image h = cc
same_kind→eq paper_image pdf h = cc
same_kind→eq paper_image paper_text h = cc

read_text-IsOfKind :
    (input : Bytes) (e : InputError) (kind : DetectedInputKind)
    → read_text input e ≡ ok kind
    → (kind ≡ paper_text) × IsOfKind kind input
unfolding read_text
read_text-IsOfKind input e kind h = elim (Option-cases (utf8_decode input)) [
  | inl n ↦ absurd (ground arith)
  | inr (s, d) ↦ elim (Bool-cases (starts_with (trim s) (codes "CRD1:"))) [
    | inr a ↦ absurd (ground arith)
    | inl a ↦
        let same : paper_text ≡ kind = ok_injective _ _ (rw (read_text, d, a) at h) in
        (sym same, subst (λ k. IsOfKind k input) same (s, d, a))
  ]
]

detect_magic-IsOfKind :
    (input : Bytes) (kind : DetectedInputKind)
    → detect_magic input ≡ some kind
    → IsOfKind kind input
unfolding detect_magic
detect_magic-IsOfKind input kind h = elim (Bool-cases (starts_with input pdf_magic)) [
  | inl a ↦ subst (λ k. IsOfKind k input) (some_injective (rw a at h)) a
  | inr a ↦ elim (Bool-cases (starts_with input png_magic)) [
    | inl b ↦ subst (λ k. IsOfKind k input) (some_injective (rw (a, b) at h)) b
    | inr b ↦ absurd (ground arith)
  ]
]

-- The kind that the leading bytes confirm.
confirmed :
    (found : Option DetectedInputKind) (requested kind : DetectedInputKind) (input : Bytes)
    → same_kind requested paper_text ≡ false
    → confirm requested found input ≡ ok kind
    → (kind ≡ requested) × (found ≡ some requested)
unfolding confirm
confirmed none pdf kind input r h = absurd (ground arith)
confirmed none paper_image kind input r h = absurd (ground arith)
confirmed found paper_text kind input r h = absurd (ground arith)
confirmed (some found) pdf kind input r h = elim (Bool-cases (same_kind found pdf)) [
  | inl a ↦ (sym (ok_injective _ _ (rw a at h)), ap some (same_kind→eq found pdf a))
  | inr a ↦ absurd (ground arith)
]
confirmed (some found) paper_image kind input r h =
    elim (Bool-cases (same_kind found paper_image)) [
      | inl a ↦ (sym (ok_injective _ _ (rw a at h)), ap some (same_kind→eq found paper_image a))
      | inr a ↦ absurd (ground arith)
    ]

magic_confirmed :
    (requested kind : DetectedInputKind) (input : Bytes)
    → same_kind requested paper_text ≡ false
    → confirm requested (detect_magic input) input ≡ ok kind
    → (kind ≡ requested) × IsOfKind kind input
magic_confirmed requested kind input r h =
    let (k, f) = confirmed (detect_magic input) requested kind input r h in
    (k, subst (λ x. IsOfKind x input) (sym k) (detect_magic-IsOfKind input requested f))

confirm-IsOfKind :
    (requested kind : DetectedInputKind) (input : Bytes)
    → confirm requested (detect_magic input) input ≡ ok kind
    → (kind ≡ requested) × IsOfKind kind input
unfolding confirm
confirm-IsOfKind paper_text kind input h = read_text-IsOfKind input ambiguous_input kind h
confirm-IsOfKind pdf kind input h = magic_confirmed pdf kind input refl h
confirm-IsOfKind paper_image kind input h = magic_confirmed paper_image kind input refl h

maximum_lem :
    (content_type : Text) (kind : DetectedInputKind)
    → content_type_kind content_type ≡ some kind
    → maximum_of_type content_type ≡ maximum_of_kind kind
unfolding content_type_kind maximum_of_type is_text_type list_eq
maximum_lem t kind h = elim (Bool-cases (list_eq t (codes "application/pdf"))) [
  | inl a ↦ rw (list_eq→eq t _ a) (ap maximum_of_kind (some_injective (rw a at h)))
  | inr a ↦ elim (Bool-cases (list_eq t (codes "image/png"))) [
    | inl b ↦ rw b (ap maximum_of_kind (some_injective (rw (a, b) at h)))
    | inr b ↦ elim (Bool-cases (is_text_type t)) [
      | inl c ↦ rw (b, c) (ap maximum_of_kind (some_injective (rw (a, b, c) at h)))
      | inr c ↦ absurd (let bad : none ≡ some kind = rw (a, b, c) at h in cc)
    ]
  ]
]

-- An input of the kind, within the limit of the kind, as its content type has it.
abbrev pub IsDetected : Bytes → Option Text → DetectedInputKind → Type 0
IsDetected input content_type kind =
    IsOfKind kind input
    × (length input ≤ maximum_of_kind kind)
    × AgreesWith (normalize_content_type content_type) kind

requested-IsDetected :
    (t : Text) (input : Bytes) (kind : DetectedInputKind)
    → detect_requested t input ≡ ok kind
    → IsOfKind kind input
      × (length input ≤ maximum_of_kind kind)
      × (content_type_kind t ≡ some kind)
unfolding detect_requested
requested-IsDetected t input kind h =
    let (u, a, h1) =
      >>=-eq-ok (refuse_if (ltb (maximum_of_type t) (length input)) input_too_large) _ h in
    elim (Option-cases (content_type_kind t)) [
      | inl n ↦ absurd (ground arith)
      | inr (requested, e) ↦
          let (v, b, h2) =
            >>=-eq-ok (refuse_if (is_other_kind (detect_magic input) requested) ambiguous_input) _
              (rw e at h1) in
          let (k, is) = confirm-IsOfKind requested kind input h2 in
          let typed : content_type_kind t ≡ some kind = e ∙ ap some (sym k) in
          (is, rw (sym (maximum_lem t kind typed)) (ltb_false→le _ _ (passed _ _ a)), typed)
    ]

unlabelled-IsDetected :
    (input : Bytes) (kind : DetectedInputKind)
    → detect_unlabelled input (detect_magic input) ≡ ok kind
    → IsOfKind kind input × (length input ≤ maximum_of_kind kind)
unfolding detect_unlabelled
unlabelled-IsDetected input kind h = elim (Option-cases (detect_magic input)) [
  | inl n ↦
      let (u, a, h1) =
        >>=-eq-ok (refuse_if (ltb max_paper_text_bytes (length input)) input_too_large) _
          (rw n at h) in
      let (k, is) = read_text-IsOfKind input unknown_input kind h1 in
      (is, rw k (ltb_false→le _ _ (passed _ _ a)))
  | inr (found, f) ↦
      let (u, a, h1) =
        >>=-eq-ok (refuse_if (ltb (maximum_of_kind found) (length input)) input_too_large) _
          (rw f at h) in
      let same = ok_injective _ _ h1 in
      (
        subst (λ k. IsOfKind k input) same (detect_magic-IsOfKind input found f),
        subst (λ k. length input ≤ maximum_of_kind k) same (ltb_false→le _ _ (passed _ _ a)),
      )
]

-- An input that is detected as some kind has the leading bytes of the kind, or is text that starts
-- with `CRD1:` once trimmed, is no longer than the limit of the kind, and its content type, if it
-- has one, is one of the kind.
pub detect_input-IsDetected :
    (input : Bytes) (content_type : Option Text) (kind : DetectedInputKind)
    → detect_input input content_type ≡ ok kind
    → IsDetected input content_type kind
unfolding detect_input
detect_input-IsDetected input content_type kind h =
    elim (Option-cases (normalize_content_type content_type)) [
      | inl n ↦
          let (is, short) = unlabelled-IsDetected input kind (rw (detect_input, n) at h) in
          rw n (is, short, tt)
      | inr (t, e) ↦ rw e (requested-IsDetected t input kind (rw (detect_input, e) at h))
    ]
