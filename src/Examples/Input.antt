-- ===== src/Examples/Input.antt =====
-- packages/verifier/src/verify-input.ts on the first bytes of a PDF file, and on a text.
use credaryn.Base.Text.{to_lower_case, list_eq, starts_with, trim, codes, Text, Bytes}
use credaryn.Base.{err, refl, ok, none, ◌≡◌, some, Option}
use credaryn.Verifier.Input.{
  ambiguous_input, paper_text, confirm, is_text_type, maximum_of_type, detect_magic, read_text,
  content_type_kind, detect_unlabelled, detect_requested, before_semicolon, normalize_content_type,
  pdf, detect_input,
}
use credaryn.Verifier.Input.Detected.{detect_input-IsDetected, IsDetected}
use credaryn.Base.Utf8.{utf8_decode}

abbrev file : Bytes
file = codes "%PDF-1.7"

abbrev label : Option Text
label = some (codes "Application/PDF; v=1")

file_lem : detect_input file label ≡ ok pdf
unfolding detect_input normalize_content_type before_semicolon to_lower_case trim detect_requested
    content_type_kind detect_magic maximum_of_type is_text_type confirm starts_with list_eq
file_lem = refl

text_lem :
    (detect_input (codes " CRD1:A ") none ≡ ok paper_text)
    × (detect_input (codes "CRD1:A") label ≡ err ambiguous_input)
    × (detect_input file (some (codes "text/plain")) ≡ err ambiguous_input)
unfolding detect_input normalize_content_type before_semicolon to_lower_case trim detect_requested
    detect_unlabelled read_text content_type_kind detect_magic maximum_of_type is_text_type confirm
    starts_with list_eq utf8_decode
text_lem = (refl, refl, refl)

detect_input-IsDetected_example : IsDetected file label pdf
detect_input-IsDetected_example = detect_input-IsDetected file label pdf file_lem
