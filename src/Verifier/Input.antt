-- ===== src/Verifier/Input.antt =====
-- packages/verifier/src/verify-input.ts: detectInput. A missing content type and a blank one are the
-- same.
pub mod Detected
use credaryn.Base.{
  length, ◌+◌, ltb, ◌&&◌, ◌||◌, ok, refuse_if, [], ◌==◌, leb, not, err, ◌>>◌, ◌*◌, ◌∷◌, none, some,
  if◌then◌else◌, true, false, Result, ℕ, Option, Bool,
}
use credaryn.Base.Text.{to_lower_case, trim, codes, starts_with, list_eq, Bytes, Text}
use credaryn.Base.Utf8.{utf8_decode}

pub data DetectedInputKind : Type 0 where
  pdf paper_text paper_image : DetectedInputKind

-- The codes of `VerificationInputError`.
pub data InputError : Type 0 where
  unsupported_content_type ambiguous_input unknown_input : InputError
  input_too_large invalid_text : InputError

abbrev pub max_paper_image_bytes : ℕ
max_paper_image_bytes = 4 * 1024 * 1024

abbrev pub max_paper_text_bytes : ℕ
max_paper_text_bytes = 64 * 1024

abbrev pub max_pdf_bytes : ℕ
max_pdf_bytes = 16 * 1024 * 1024

abbrev pub pdf_magic : Bytes
pdf_magic = 0x25 ∷ 0x50 ∷ 0x44 ∷ 0x46 ∷ 0x2d ∷ []

abbrev pub png_magic : Bytes
png_magic = 0x89 ∷ 0x50 ∷ 0x4e ∷ 0x47 ∷ 0x0d ∷ 0x0a ∷ 0x1a ∷ 0x0a ∷ []

unfoldable pub before_semicolon : Text → Text
before_semicolon [] = []
before_semicolon (c ∷ s) = let rest = before_semicolon s in if c == b';' then [] else c ∷ rest

abbrev non_empty : Text → Option Text
non_empty [] = none
non_empty (c ∷ s) = some (c ∷ s)

unfoldable pub normalize_content_type : Option Text → Option Text
normalize_content_type none = none
normalize_content_type (some s) = non_empty (to_lower_case (trim (before_semicolon s)))

unfoldable pub is_text_type : Text → Bool
is_text_type s = list_eq s (codes "text/plain") || list_eq s (codes "text/vnd.credaryn.crd1")

unfoldable pub content_type_kind : Text → Option DetectedInputKind
content_type_kind s =
    if list_eq s (codes "application/pdf")
    then some pdf
    else if list_eq s (codes "image/png")
    then some paper_image
    else if is_text_type s
    then some paper_text
    else none

unfoldable pub detect_magic : Bytes → Option DetectedInputKind
detect_magic input =
    if starts_with input pdf_magic
    then some pdf
    else if starts_with input png_magic
    then some paper_image
    else none

-- The `maximum` of `assertSize` for a content type that is normalized.
unfoldable pub maximum_of_type : Text → ℕ
maximum_of_type s =
    if list_eq s (codes "image/png")
    then max_paper_image_bytes
    else if is_text_type s
    then max_paper_text_bytes
    else max_pdf_bytes

abbrev pub maximum_of_kind : DetectedInputKind → ℕ
maximum_of_kind pdf = max_pdf_bytes
maximum_of_kind paper_text = max_paper_text_bytes
maximum_of_kind paper_image = max_paper_image_bytes

abbrev pub same_kind : DetectedInputKind → DetectedInputKind → Bool
same_kind pdf pdf = true
same_kind paper_text paper_text = true
same_kind paper_image paper_image = true
same_kind _ _ = false

abbrev pub is_other_kind : Option DetectedInputKind → DetectedInputKind → Bool
is_other_kind none requested = false
is_other_kind (some found) requested = not (same_kind found requested)

-- The text of the input, and its test for `CRD1:`.
unfoldable pub read_text : Bytes → InputError → Result InputError DetectedInputKind
read_text input e = elim (utf8_decode input) [
  | none ↦ err invalid_text
  | some s ↦ if starts_with (trim s) (codes "CRD1:") then ok paper_text else err e
]

-- A request that the leading bytes do not contradict.
unfoldable pub confirm :
    DetectedInputKind → Option DetectedInputKind → Bytes → Result InputError DetectedInputKind
confirm paper_text found input = read_text input ambiguous_input
confirm requested none input = err ambiguous_input
confirm requested (some found) input =
    if same_kind found requested then ok requested else err ambiguous_input

unfoldable pub detect_requested : Text → Bytes → Result InputError DetectedInputKind
detect_requested content_type input = do
  refuse_if (ltb (maximum_of_type content_type) (length input)) input_too_large
  elim (content_type_kind content_type) [
    | none ↦ err unsupported_content_type
    | some requested ↦ do
      refuse_if (is_other_kind (detect_magic input) requested) ambiguous_input
      confirm requested (detect_magic input) input
  ]

unfoldable pub detect_unlabelled :
    Bytes → Option DetectedInputKind → Result InputError DetectedInputKind
detect_unlabelled input (some found) = do
  refuse_if (ltb (maximum_of_kind found) (length input)) input_too_large
  ok found
detect_unlabelled input none = do
  refuse_if (ltb max_paper_text_bytes (length input)) input_too_large
  read_text input unknown_input

unfoldable pub detect_input : Bytes → Option Text → Result InputError DetectedInputKind
detect_input input content_type = elim (normalize_content_type content_type) [
  | none ↦ detect_unlabelled input (detect_magic input)
  | some normalized ↦ detect_requested normalized input
]
