-- ===== src/Files/Media.antt =====
-- The header parser stays inside its buffer, and what it reports is in range.
use mathlib.Core.Path.{subst}
use qbrain.Prelude.{
  ℕ, zero, suc, ◌+◌, ◌-◌, ◌≤◌, ◌<◌, ◌≡◌, refl, sym, ◌||◌, Bool, true, false, not, Option, none,
  some, [], ◌∷◌, Bytes, length, get_elem?, is_empty, ◌==◌, ltb, leb, in_range, if◌then◌else◌, arith,
  starts_with, ◌⊎◌, Option-cases, inl, inr,
}
use qbrain.Files.{
  ImageMeta, read, be16, be32, color_components, png_frame, read_ihdr, png_from, parse_png,
  fill_bytes, read_sof, jpeg_segment, jpeg_marker, jpeg_from, parse_jpeg, parse_image_meta,
  png_signature, jpeg_signature, image_meta_max_input_bytes, image_meta_max_scan_bytes,
  png_max_chunks, jpeg_max_markers, is_ihdr,
}
use qbrain.Files.Signature.{read_lem, parse_image_meta_lem}

-- Metadata that is reported as known has both dimensions, and one to four components.
abbrev pub IsSound : ImageMeta → Type 0
IsSound m =
    (m.ok ≡ false) ⊎ (1 ≤ m.width) × (1 ≤ m.height) × (1 ≤ m.components) × (m.components ≤ 4)

-- Every read was inside the buffer, and the answer is sound.
Safe : Option ImageMeta → Type 0
Safe none = ⊥
Safe (some m) = IsSound m

unknown-Safe : (m : ImageMeta) → m.ok ≡ false → Safe (some m)
unfolding Safe
unknown-Safe m h = inl h

get_elem-some : (b : Bytes) (pos : ℕ) → pos < length b → (c : ℕ) × (get_elem? b pos ≡ some c)
get_elem-some [] pos h = absurd (omega arith)
get_elem-some (c ∷ b) zero h = (c, refl)
get_elem-some (c ∷ b) (suc pos) h = get_elem-some b pos (omega arith)

module _ (b : Bytes) where
  read-Safe :
      (pos : ℕ) (next : ℕ → Option ImageMeta)
      → pos < length b
      → ((c : ℕ) → Safe (next c))
      → Safe (read b pos next)
  read-Safe pos next h safe =
      let (c, e) = get_elem-some b pos h in subst Safe (sym (read_lem b pos c next e)) (safe c)

  be16-Safe :
      (pos : ℕ) (next : ℕ → Option ImageMeta)
      → pos + 1 < length b
      → ((c : ℕ) → Safe (next c))
      → Safe (be16 b pos next)
  unfolding be16
  be16-Safe pos next h safe =
      read-Safe pos _ (omega arith) λ _. read-Safe (pos + 1) _ (omega arith) λ _. safe _

  be32-Safe :
      (pos : ℕ) (next : ℕ → Option ImageMeta)
      → pos + 3 < length b
      → ((c : ℕ) → Safe (next c))
      → Safe (be32 b pos next)
  unfolding be32
  be32-Safe pos next h safe = read-Safe pos _ (omega arith) λ _.
      read-Safe (pos + 1) _ (omega arith) λ _.
        read-Safe (pos + 2) _ (omega arith) λ _. read-Safe (pos + 3) _ (omega arith) λ _. safe _

color_components_range : (color n : ℕ) → color_components color ≡ some n → (1 ≤ n) × (n ≤ 4)
color_components_range color n h = ground arith

png_frame-IsSound :
    (w h depth color compression filter interlace : ℕ)
    → IsSound (png_frame w h depth color compression filter interlace)
unfolding png_frame
png_frame-IsSound w h depth color compression filter interlace =
    elim (Option-cases (color_components color)) [
      | inl e ↦ rw e (ground arith)
      | inr (n, e) ↦ rw e (ground (arith, color_components_range color n e))
    ]

some-Safe : (m : ImageMeta) → IsSound m → Safe (some m)
unfolding Safe
some-Safe m h = h

read_ihdr-Safe : (b : Bytes) (d : ℕ) → d + 12 < length b → Safe (read_ihdr b d)
unfolding read_ihdr
read_ihdr-Safe b d h = be32-Safe b d _ (omega arith) λ w. be32-Safe b (d + 4) _ (omega arith) λ hh.
    read-Safe b (d + 8) _ (omega arith) λ depth. read-Safe b (d + 9) _ (omega arith) λ color.
      read-Safe b (d + 10) _ (omega arith) λ compression.
        read-Safe b (d + 11) _ (omega arith) λ filter.
          read-Safe b (d + 12) _ h λ interlace.
            some-Safe _ (png_frame-IsSound w hh depth color compression filter interlace)

-- A conditional is safe if both branches are, each under its condition.
if-Safe :
    (test : Bool) (x y : Option ImageMeta)
    → (test ≡ true → Safe x)
    → (test ≡ false → Safe y)
    → Safe (if test then x else y)
if-Safe true x y hx hy = hx refl
if-Safe false x y hx hy = hy refl

png_from-Safe : (b : Bytes) (left pos : ℕ) → Safe (png_from b left pos)
unfolding png_from
png_from-Safe b zero pos =
    if-Safe (leb (pos + 8) (length b)) _ _
      (λ _.
        if-Safe (ltb image_meta_max_scan_bytes pos) _ _ (λ _. unknown-Safe _ refl)
          (λ _. unknown-Safe _ refl))
      (λ _. unknown-Safe _ refl)
png_from-Safe b (suc left) pos =
    let rest = λ (next : ℕ). png_from-Safe b left next in
    if-Safe (leb (pos + 8) (length b)) _ _
      (λ inside.
        if-Safe (ltb image_meta_max_scan_bytes pos) _ _ (λ _. unknown-Safe _ refl)
          λ _. be32-Safe b pos _ (ground arith) λ len.
            if-Safe (ltb (length b - pos) (len + 12)) _ _ (λ _. unknown-Safe _ refl)
              λ fits. read-Safe b (pos + 4) _ (ground arith) λ t0.
                read-Safe b (pos + 5) _ (ground arith) λ t1.
                  read-Safe b (pos + 6) _ (ground arith) λ t2.
                    read-Safe b (pos + 7) _ (ground arith) λ t3.
                      if-Safe (is_ihdr t0 t1 t2 t3) _ _
                        (λ _.
                          if-Safe (ltb len 13) _ _ (λ _. unknown-Safe _ refl)
                            λ long. read_ihdr-Safe b (pos + 8) (ground arith))
                        (λ _. rest (pos + (len + 12))))
      (λ _. unknown-Safe _ refl)

read_sof-Safe : (b : Bytes) (payload : ℕ) → payload + 5 < length b → Safe (read_sof b payload)
unfolding read_sof
read_sof-Safe b payload h = read-Safe b payload _ (omega arith) λ precision.
    be16-Safe b (payload + 1) _ (omega arith) λ hh.
      be16-Safe b (payload + 3) _ (omega arith)
        λ w. read-Safe b (payload + 5) _ h λ ncomp. some-Safe _ (ground arith)

jpeg_segment-Safe :
    (b : Bytes) (code pos : ℕ) (more : ℕ → Option ImageMeta)
    → ((next : ℕ) → Safe (more next))
    → Safe (jpeg_segment b code pos more)
unfolding jpeg_segment
jpeg_segment-Safe b code pos more safe =
    if-Safe (code == 0x01 || in_range 0xd0 0xd8 code) _ _ (λ _. safe pos)
      λ _.
        if-Safe (code == 0xd9 || code == 0xda) _ _ (λ _. unknown-Safe _ refl)
          λ _.
            if-Safe (ltb (length b) (pos + 2)) _ _ (λ _. unknown-Safe _ refl)
              λ inside. be16-Safe b pos _ (ground arith) λ len.
                if-Safe (ltb len 2) _ _ (λ _. unknown-Safe _ refl)
                  λ two.
                    if-Safe (ltb (length b) (pos + len)) _ _ (λ _. unknown-Safe _ refl)
                      λ fits.
                        if-Safe (code == 0xc0 || code == 0xc2) _ _
                          (λ _.
                            if-Safe (ltb (len - 2) 6) _ _ (λ _. unknown-Safe _ refl)
                              λ six. read_sof-Safe b (pos + 2) (ground arith))
                          (λ _. safe (pos + len))

fill_bytes-Safe :
    (b : Bytes) (left pos : ℕ) (next : ℕ → Option ImageMeta)
    → ((at : ℕ) → Safe (next at))
    → Safe (fill_bytes b left pos next)
unfolding fill_bytes
fill_bytes-Safe b zero pos next safe = safe pos
fill_bytes-Safe b (suc left) pos next safe =
    let rest = fill_bytes-Safe b left (suc pos) next safe in
    if-Safe (ltb pos (length b)) _ _
      (λ inside.
        read-Safe b pos _ (ground arith) λ c. if-Safe (c == 0xff) _ _ (λ _. rest) (λ _. safe pos))
      (λ _. safe pos)

jpeg_marker-Safe :
    (b : Bytes) (pos : ℕ) (next : ℕ → ℕ → Option ImageMeta)
    → ((code at : ℕ) → Safe (next code at))
    → Safe (jpeg_marker b pos next)
unfolding jpeg_marker
jpeg_marker-Safe b pos next safe =
    if-Safe (leb (length b) pos) _ _ (λ _. unknown-Safe _ refl)
      λ inside.
        if-Safe (ltb image_meta_max_scan_bytes pos) _ _ (λ _. unknown-Safe _ refl)
          λ _. read-Safe b pos _ (ground arith) λ first.
            if-Safe (not (first == 0xff)) _ _ (λ _. unknown-Safe _ refl)
              λ _. fill_bytes-Safe b (length b - pos) pos _ λ at.
                if-Safe (leb (length b) at) _ _ (λ _. unknown-Safe _ refl)
                  λ more. read-Safe b at _ (ground arith) λ code. safe code at

jpeg_from-Safe : (b : Bytes) (left pos : ℕ) → Safe (jpeg_from b left pos)
unfolding jpeg_from
jpeg_from-Safe b zero pos = jpeg_marker-Safe b pos _ λ _ _. unknown-Safe _ refl
jpeg_from-Safe b (suc left) pos =
    let rest = λ (next : ℕ). jpeg_from-Safe b left next in
    jpeg_marker-Safe b pos _ λ code at. jpeg_segment-Safe b code (at + 1) _ rest

parse-Safe : (b : Bytes) → Safe (parse_image_meta b)
unfolding parse_png parse_jpeg
parse-Safe b = subst Safe (sym (parse_image_meta_lem b)) (
    if-Safe (is_empty b) _ _ (λ _. unknown-Safe _ refl)
      λ _.
        if-Safe (ltb image_meta_max_input_bytes (length b)) _ _ (λ _. unknown-Safe _ refl)
          λ _.
            if-Safe (starts_with b png_signature) _ _ (λ _. png_from-Safe b png_max_chunks 8)
              λ _.
                if-Safe (starts_with b jpeg_signature) _ _
                  (λ _. jpeg_from-Safe b (jpeg_max_markers - 1) 2) λ _. unknown-Safe _ refl)

Safe-some : (o : Option ImageMeta) → Safe o → (m : ImageMeta) × (o ≡ some m) × IsSound m
unfolding Safe
Safe-some none h = absurd h
Safe-some (some m) h = (m, refl, h)

-- Parsing the header of any buffer reads only inside the buffer and returns; and if it reports the
-- image as known, both dimensions are positive, and there are one to four components.
pub parse_image_meta-IsSound :
    (b : Bytes) → (m : ImageMeta) × (parse_image_meta b ≡ some m) × IsSound m
parse_image_meta-IsSound b = Safe-some (parse_image_meta b) (parse-Safe b)
