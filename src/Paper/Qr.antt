-- ===== src/Paper/Qr.antt =====
-- packages/paper/src/qr.ts: decodePaperSealQr. The reader of PNG files and the readers of QR codes are
-- those of libraries: what they answer is a parameter, with the message of an error that they throw.
use credaryn.Base.{
  drop, leb, ◌||◌, map_err, ◌&&◌, length, ◌==◌, ltb, zero, not, refuse_if, suc, err, List, Bool,
  ◌>>◌, ok, ◌>>=◌, ℕ, Result, ◌∷◌, [], ◌*◌, ◌+◌,
}
use credaryn.Base.Text.{Bytes, Text, codes, starts_with}

pub data PaperQrError : Type 0 where
  image_too_large not_png no_png_header dimensions_exceeded no_seal : PaperQrError
  library_refused : Text → PaperQrError

-- `PNG` of pngjs.
pub record Png : Type 0 where
  pub width : ℕ
  pub height : ℕ
  pub data_bytes : Bytes

pub record QrLibraries : Type 1 where
  pub Source : Type 0
  pub read_png : Bytes → Result Text Png
  pub luminance : List ℕ → ℕ → ℕ → Result Text Source
  pub decode_pure_hybrid : Source → Result Text Text
  pub decode_pure_global : Source → Result Text Text
  pub decode_hybrid : Source → Result Text Text

abbrev pub max_qr_image_bytes : ℕ
max_qr_image_bytes = 4 * 1024 * 1024

abbrev pub max_qr_dimension : ℕ
max_qr_dimension = 4096

-- `DataView.getUint32` at the start of what is left of the image.
unfoldable pub uint32_of : Bytes → ℕ
uint32_of (a ∷ b ∷ c ∷ d ∷ rest) = ((a * 0x100 + b) * 0x100 + c) * 0x100 + d
uint32_of _ = 0

abbrev png_signature : Bytes
png_signature = 0x89 ∷ 0x50 ∷ 0x4e ∷ 0x47 ∷ 0x0d ∷ 0x0a ∷ 0x1a ∷ 0x0a ∷ []

abbrev is_qr_dimension : ℕ → Bool
is_qr_dimension n = not (n == 0) && leb n max_qr_dimension

unfoldable pub assert_png_dimensions : Bytes → Result PaperQrError (Unit {0})
assert_png_dimensions image = do
  refuse_if (ltb (length image) 24 || not (starts_with image png_signature)) not_png
  refuse_if
      (not (uint32_of (drop 8 image) == 13)
        || not (starts_with (drop 12 image) (0x49 ∷ 0x48 ∷ 0x44 ∷ 0x52 ∷ [])))
      no_png_header
  refuse_if
      (not (is_qr_dimension (uint32_of (drop 16 image)))
        || not (is_qr_dimension (uint32_of (drop 20 image))))
      dimensions_exceeded

-- The loop over the pixels, of four bytes each; a byte that is missing counts as 0.
unfoldable pub pixels_of : ℕ → Bytes → List ℕ
pixels_of zero data_bytes = []
pixels_of (suc n) (r ∷ g ∷ b ∷ a ∷ rest) = ((r * 0x100 + g) * 0x100 + b) ∷ pixels_of n rest
pixels_of (suc n) (r ∷ g ∷ b ∷ []) = ((r * 0x100 + g) * 0x100 + b) ∷ pixels_of n []
pixels_of (suc n) (r ∷ g ∷ []) = ((r * 0x100 + g) * 0x100) ∷ pixels_of n []
pixels_of (suc n) (r ∷ []) = (r * 0x100 * 0x100) ∷ pixels_of n []
pixels_of (suc n) [] = 0 ∷ pixels_of n []

-- The `catch` that makes a further attempt.
unfoldable pub or_next : Result Text Text → Result Text Text → Result Text Text
or_next (ok s) next = ok s
or_next (err message) next = next

module _ (libraries : QrLibraries) where
  unfoldable pub read_code : Png → Result Text Text
  read_code png = do
    source ←
        libraries.luminance (pixels_of (png.width * png.height) png.data_bytes) png.width png.height
    or_next (libraries.decode_pure_hybrid source)
        (or_next (libraries.decode_pure_global source) (libraries.decode_hybrid source))

  unfoldable pub decode_paper_seal_qr : Bytes → Result PaperQrError Text
  decode_paper_seal_qr image = do
    refuse_if (ltb max_qr_image_bytes (length image)) image_too_large
    assert_png_dimensions image
    png ← map_err library_refused (libraries.read_png image)
    refuse_if (ltb max_qr_dimension png.width || ltb max_qr_dimension png.height)
        dimensions_exceeded
    content ← map_err library_refused (read_code png)
    refuse_if (not (starts_with content (codes "CRD1:"))) no_seal
    ok content

abbrev pub qr_message : PaperQrError → Text
qr_message image_too_large = codes "QR image exceeds the maximum size of 4 MiB"
qr_message not_png = codes "QR image is not a valid PNG"
qr_message no_png_header = codes "QR image is missing a valid PNG header"
qr_message dimensions_exceeded = codes "QR image dimensions exceed the configured limit"
qr_message no_seal = codes "QR content does not contain a CRD1 Paper Seal"
qr_message (library_refused message) = message
