-- ===== src/Files/Png.antt =====
-- A PNG header that is written is read back.
use qbrain.Prelude.{
  ℕ, suc, ◌+◌, ◌-◌, ◌*◌, ◌/◌, ◌%◌, ◌≤◌, ◌≡◌, refl, true, false, some, ◌∷◌, ◌++◌, Bytes, length, ltb,
  leb, arith, starts_with, ap, ◌∙◌,
}
use qbrain.Files.Signature.{parse_image_meta_lem}
use qbrain.Files.{
  known, read, be32, png_frame, read_ihdr, png_from, parse_png, parse_image_meta, color_components,
  is_bit_depth, png_signature, image_meta_max_input_bytes,
}

-- The four bytes of a number, the highest first, before a text.
abbrev pub put32 : ℕ → Bytes → Bytes
put32 n s = n / 16777216 ∷ n / 65536 % 256 ∷ n / 256 % 256 ∷ n % 256 ∷ s

-- A file with a PNG signature whose first chunk is IHDR.
abbrev pub png_file : ℕ → ℕ → ℕ → ℕ → ℕ → Bytes → Bytes
png_file w h depth color interlace rest =
    png_signature
    ++ put32 13
        (b'I' ∷ b'H' ∷ b'D' ∷ b'R' ∷ put32 w (put32 h (depth ∷ color ∷ 0 ∷ 0 ∷ interlace ∷ rest)))

put32_value :
    (n : ℕ) → n / 16777216 * 16777216 + n / 65536 % 256 * 65536 + n / 256 % 256 * 256 + n % 256 ≡ n
put32_value n = omega arith

png_frame_lem :
    (w h depth color interlace comps : ℕ)
    → 1 ≤ w
    → 1 ≤ h
    → is_bit_depth depth ≡ true
    → color_components color ≡ some comps
    → interlace ≤ 1
    → png_frame w h depth color 0 0 interlace ≡ known "png" w h depth comps
unfolding png_frame
png_frame_lem w h depth color interlace comps hw hh d c i = rw (c, d) (ground arith)

read_ihdr_lem :
    (w h depth color interlace : ℕ) (rest : Bytes)
    → read_ihdr (png_file w h depth color interlace rest) 16
      ≡ some (png_frame w h depth color 0 0 interlace)
unfolding read_ihdr be32 read
read_ihdr_lem w h depth color interlace rest = rw (put32_value w, put32_value h) refl

png_from_lem :
    (left w h depth color interlace : ℕ) (rest : Bytes)
    → 4 ≤ length rest
    → png_from (png_file w h depth color interlace rest) (suc left) 8
      ≡ read_ihdr (png_file w h depth color interlace rest) 16
unfolding png_from be32 read
png_from_lem left w h depth color interlace rest long =
    let inside : leb 16 (length (png_file w h depth color interlace rest)) ≡ true = ground arith in
    let fits : ltb (length (png_file w h depth color interlace rest) - 8) 25 ≡ false =
      ground arith in
    rw (inside, fits) refl

-- A file within the input bound that begins with the PNG signature and an IHDR chunk of 13 bytes,
-- followed by its checksum and any bytes, is read as the dimensions and the bit depth of the chunk
-- and the components of its color type, if these are valid.
pub parse_image_meta-png_file :
    (w h depth color interlace comps : ℕ) (rest : Bytes)
    → 1 ≤ w
    → 1 ≤ h
    → is_bit_depth depth ≡ true
    → color_components color ≡ some comps
    → interlace ≤ 1
    → 4 ≤ length rest
    → 29 + length rest ≤ 33554432
    → parse_image_meta (png_file w h depth color interlace rest)
      ≡ some (known "png" w h depth comps)
unfolding parse_png
parse_image_meta-png_file w h depth color interlace comps rest hw hh d c i long short =
    let b = png_file w h depth color interlace rest in
    let bounded : ltb image_meta_max_input_bytes (length b) ≡ false = ground arith in
    let signed : starts_with b png_signature ≡ true = unfold starts_with in refl in
    parse_image_meta_lem b
    ∙ rw (bounded, signed)
        (png_from_lem 999 w h depth color interlace rest long
          ∙ read_ihdr_lem w h depth color interlace rest
          ∙ ap some (png_frame_lem w h depth color interlace comps hw hh d c i))
