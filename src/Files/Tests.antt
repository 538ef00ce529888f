-- ===== src/Files/Tests.antt =====
-- Runs of the header parser, and the theorems on it at concrete buffers.
use qbrain.Prelude.{text_eq, codes, true, ◌⊎◌, ◌≡◌, refl, some, [], ◌∷◌, Bytes, arith, starts_with}
use qbrain.Files.{
  ImageMeta, known, parse_image_meta, parse_jpeg, jpeg_from, jpeg_marker, jpeg_segment, read_sof,
  read, be16, has_bytes, fill_bytes,
}
use qbrain.Files.Media.{IsSound, parse_image_meta-IsSound}
use qbrain.Files.Mime.{sniff_mime, content_mime, mime_for_ext, norm_ext, after_last_dot}
use qbrain.Files.Sniff.{SniffedAs, parse_image_meta-SniffedAs}
use qbrain.Files.Png.{png_file, parse_image_meta-png_file}

-- A JPEG with a filler segment and the frame header of a 2 by 3 image.
abbrev jpeg : Bytes
jpeg =
    0xff ∷ 0xd8 ∷ 0xff ∷ 0xe0 ∷ 0 ∷ 3 ∷ 9 ∷ 0xff ∷ 0xff ∷ 0xc0 ∷ 0 ∷ 8 ∷ 8 ∷ 0 ∷ 3 ∷ 0 ∷ 2 ∷ 3 ∷ []

jpeg_parsed : parse_image_meta jpeg ≡ some (known "jpeg" 2 3 8 3)
unfolding parse_image_meta parse_jpeg jpeg_from jpeg_marker jpeg_segment read_sof read be16
    has_bytes fill_bytes starts_with
jpeg_parsed = refl

parse_image_meta-IsSound_example : (m : ImageMeta) × (parse_image_meta jpeg ≡ some m) × IsSound m
parse_image_meta-IsSound_example = parse_image_meta-IsSound jpeg

parse_image_meta-png_file_example :
    parse_image_meta (png_file 640 480 8 6 0 (1 ∷ 2 ∷ 3 ∷ 4 ∷ [])) ≡ some (known "png" 640 480 8 4)
parse_image_meta-png_file_example =
    parse_image_meta-png_file 640 480 8 6 0 4 (1 ∷ 2 ∷ 3 ∷ 4 ∷ []) (omega arith) (omega arith) refl
      refl (omega arith) (omega arith) (omega arith)

mismatch :
    sniff_mime jpeg (codes "photo.PNG")
    ≡ record { mime = codes "image/jpeg"; content_based = true; ext_mismatch = true }
unfolding sniff_mime content_mime mime_for_ext norm_ext after_last_dot starts_with text_eq
mismatch = refl

sniffs_jpeg :
    SniffedAs (codes "image/png") jpeg (codes "png")
    ⊎ SniffedAs (codes "image/jpeg") jpeg (codes "png")
sniffs_jpeg = parse_image_meta-SniffedAs jpeg (codes "png") (known "jpeg" 2 3 8 3) jpeg_parsed refl
