-- ===== src/Files.antt =====
-- src/qbrain/files/image_meta.cpp: image headers and the type of a file by its content. The buffer
-- is the list of its bytes, and a read outside of it is `none`.
pub mod Signature
pub mod Media
pub mod Png
pub mod Mime
pub mod Sniff
pub mod Tests
use Prim.Native.String.{String}
use qbrain.Prelude.{
  ℕ, zero, suc, ◌+◌, ◌-◌, ◌*◌, ◌&&◌, ◌||◌, Bool, true, false, not, Option, none, some, List, [],
  ◌∷◌, Bytes, codes, length, take, drop, get_elem?, is_empty, ◌==◌, ltb, leb, in_range,
  if◌then◌else◌, starts_with,
}

abbrev pub image_meta_max_input_bytes : ℕ
image_meta_max_input_bytes = 33554432

abbrev pub image_meta_max_scan_bytes : ℕ
image_meta_max_scan_bytes = 65536

abbrev pub png_max_chunks : ℕ
png_max_chunks = 1000

abbrev pub jpeg_max_markers : ℕ
jpeg_max_markers = 100

abbrev pub note_max : ℕ
note_max = 80

pub record ImageMeta : Type 0 where
  pub format : Bytes
  pub width : ℕ
  pub height : ℕ
  pub bit_depth : ℕ
  pub components : ℕ
  pub ok : Bool
  pub note : Bytes

abbrev pub unknown : String → ImageMeta
unknown note = record {
  format = codes "unknown";
  width = 0;
  height = 0;
  bit_depth = 0;
  components = 0;
  ok = false;
  note = take note_max (codes note);
}

abbrev pub known : String → ℕ → ℕ → ℕ → ℕ → ImageMeta
known format width height bit_depth components = record {
  format = codes format;
  width = width;
  height = height;
  bit_depth = bit_depth;
  components = components;
  ok = true;
  note = [];
}

-- A read of one byte, and what follows with it.
unfoldable pub read {ℓ} : {A : Type ℓ} → Bytes → ℕ → (ℕ → Option A) → Option A
read b pos next = elim (get_elem? b pos) [ none ↦ none | some c ↦ next c ]

unfoldable pub be16 {ℓ} : {A : Type ℓ} → Bytes → ℕ → (ℕ → Option A) → Option A
be16 b pos next = read b pos λ c0. read b (pos + 1) λ c1. next (c0 * 256 + c1)

unfoldable pub be32 {ℓ} : {A : Type ℓ} → Bytes → ℕ → (ℕ → Option A) → Option A
be32 b pos next = read b pos λ c0. read b (pos + 1) λ c1.
    read b (pos + 2) λ c2. read b (pos + 3) λ c3. next (c0 * 16777216 + c1 * 65536 + c2 * 256 + c3)

abbrev pub png_signature : Bytes
png_signature = 0x89 ∷ b'P' ∷ b'N' ∷ b'G' ∷ 0x0d ∷ 0x0a ∷ 0x1a ∷ 0x0a ∷ []

-- The comparison byte by byte, and what follows with its outcome.
unfoldable pub has_bytes {ℓ} : {A : Type ℓ} → Bytes → Bytes → ℕ → (Bool → Option A) → Option A
has_bytes b [] pos next = next true
has_bytes b (c ∷ cs) pos next =
    let more = has_bytes b cs (suc pos) next in
    read b pos λ found. if found == c then more else next false

abbrev pub has_png_signature {ℓ} : {A : Type ℓ} → Bytes → (Bool → Option A) → Option A
has_png_signature b next = if leb 8 (length b) then has_bytes b png_signature 0 next else next false

abbrev pub jpeg_signature : Bytes
jpeg_signature = 0xff ∷ 0xd8 ∷ 0xff ∷ []

abbrev pub has_jpeg_signature {ℓ} : {A : Type ℓ} → Bytes → (Bool → Option A) → Option A
has_jpeg_signature b next =
    if leb 3 (length b) then has_bytes b jpeg_signature 0 next else next false

-- The samples of a PNG color type.
abbrev pub color_components : ℕ → Option ℕ
color_components color =
    if color == 0
    then some 1
    else if color == 2
    then some 3
    else if color == 3
    then some 1
    else if color == 4
    then some 2
    else if color == 6
    then some 4
    else none

abbrev pub is_bit_depth : ℕ → Bool
is_bit_depth depth = depth == 1 || depth == 2 || depth == 4 || depth == 8 || depth == 16

-- The checks on the fields of IHDR.
unfoldable pub png_frame : ℕ → ℕ → ℕ → ℕ → ℕ → ℕ → ℕ → ImageMeta
png_frame w h depth color compression filter interlace =
    if w == 0 || h == 0
    then unknown "invalid PNG dimensions"
    else if not (is_bit_depth depth)
    then unknown "unsupported PNG bit depth"
    else elim (color_components color) [
      | none ↦ unknown "unsupported PNG color type"
      | some comps ↦
          if not (compression == 0) || not (filter == 0)
          then unknown "unsupported PNG compression or filter method"
          else if ltb 1 interlace
          then unknown "invalid PNG interlace method"
          else known "png" w h depth comps
    ]

unfoldable pub read_ihdr : Bytes → ℕ → Option ImageMeta
read_ihdr b d = be32 b d λ w. be32 b (d + 4) λ h. read b (d + 8) λ depth. read b (d + 9) λ color.
    read b (d + 10) λ compression. read b (d + 11) λ filter.
      read b (d + 12) λ interlace. some (png_frame w h depth color compression filter interlace)

abbrev pub is_ihdr : ℕ → ℕ → ℕ → ℕ → Bool
is_ihdr t0 t1 t2 t3 = t0 == b'I' && t1 == b'H' && t2 == b'D' && t3 == b'R'

-- The walk over the chunks; the first number counts how many more it may enter.
unfoldable pub png_from : Bytes → ℕ → ℕ → Option ImageMeta
png_from b zero pos =
    if leb (pos + 8) (length b)
    then (if ltb image_meta_max_scan_bytes pos
        then some (unknown "IHDR not found within bounds")
        else some (unknown "chunk limit exceeded"))
    else some (unknown "IHDR not found within bounds")
png_from b (suc left) pos =
    let more = λ (next : ℕ). png_from b left next in
    if leb (pos + 8) (length b)
    then (if ltb image_meta_max_scan_bytes pos
        then some (unknown "IHDR not found within bounds")
        else be32 b pos λ len.
          if ltb (length b - pos) (len + 12)
          then some (unknown "chunk exceeds buffer")
          else read b (pos + 4) λ t0. read b (pos + 5) λ t1. read b (pos + 6) λ t2.
            read b (pos + 7) λ t3.
              if is_ihdr t0 t1 t2 t3
              then (if ltb len 13 then some (unknown "IHDR too short") else read_ihdr b (pos + 8))
              else more (pos + (len + 12)))
    else some (unknown "IHDR not found within bounds")

unfoldable pub parse_png : Bytes → Option ImageMeta
parse_png b = png_from b png_max_chunks 8

-- The loop over the fill bytes, and what follows with the position behind them. The first number is
-- how many bytes are left, so at `zero` the position is at the end.
unfoldable pub fill_bytes {ℓ} : {A : Type ℓ} → Bytes → ℕ → ℕ → (ℕ → Option A) → Option A
fill_bytes b zero pos next = next pos
fill_bytes b (suc left) pos next =
    let more = fill_bytes b left (suc pos) next in
    if ltb pos (length b) then (read b pos λ c. if c == 0xff then more else next pos) else next pos

unfoldable pub read_sof : Bytes → ℕ → Option ImageMeta
read_sof b payload = read b payload λ precision. be16 b (payload + 1) λ h. be16 b (payload + 3) λ w.
    read b (payload + 5) λ ncomp. some (
      if w == 0 || h == 0
      then unknown "invalid JPEG dimensions"
      else if ltb ncomp 1 || ltb 4 ncomp
      then unknown "invalid JPEG component count"
      else known "jpeg" w h precision ncomp)

-- The rest of a round behind the code; `pos` is behind the code.
unfoldable pub jpeg_segment : Bytes → ℕ → ℕ → (ℕ → Option ImageMeta) → Option ImageMeta
jpeg_segment b code pos more =
    if code == 0x01 || in_range 0xd0 0xd8 code
    then more pos
    else if code == 0xd9 || code == 0xda
    then some (unknown "SOF not found within bounds")
    else if ltb (length b) (pos + 2)
    then some (unknown "truncated marker length")
    else be16 b pos λ len.
      if ltb len 2
      then some (unknown "invalid marker length")
      else if ltb (length b) (pos + len)
      then some (unknown "marker exceeds buffer")
      else if code == 0xc0 || code == 0xc2
      then (if ltb (len - 2) 6
          then some (unknown "SOF payload too short")
          else read_sof b (pos + 2))
      else more (pos + len)

-- A round up to the code of its marker, and what follows with the code and its position.
unfoldable pub jpeg_marker : Bytes → ℕ → (ℕ → ℕ → Option ImageMeta) → Option ImageMeta
jpeg_marker b pos next =
    if leb (length b) pos
    then some (unknown "SOF not found within bounds")
    else if ltb image_meta_max_scan_bytes pos
    then some (unknown "SOF not found within bounds")
    else read b pos λ first.
      if not (first == 0xff)
      then some (unknown "marker desync")
      else fill_bytes b (length b - pos) pos λ code_pos.
        if leb (length b) code_pos
        then some (unknown "truncated marker")
        else read b code_pos λ code. next code code_pos

-- The walk over the markers; the first number counts how many more it may enter.
unfoldable pub jpeg_from : Bytes → ℕ → ℕ → Option ImageMeta
jpeg_from b zero pos = jpeg_marker b pos λ code at. some (unknown "marker limit exceeded")
jpeg_from b (suc left) pos =
    jpeg_marker b pos λ code at. jpeg_segment b code (at + 1) λ next. jpeg_from b left next

unfoldable pub parse_jpeg : Bytes → Option ImageMeta
parse_jpeg b = jpeg_from b (jpeg_max_markers - 1) 2

unfoldable pub parse_image_meta : Bytes → Option ImageMeta
parse_image_meta b =
    if is_empty b
    then some (unknown "empty input")
    else if ltb image_meta_max_input_bytes (length b)
    then some (unknown "input exceeds 32 MiB bound")
    else has_png_signature b λ png.
      if png
      then parse_png b
      else has_jpeg_signature b
          λ jpeg. if jpeg then parse_jpeg b else some (unknown "no PNG or JPEG signature")
