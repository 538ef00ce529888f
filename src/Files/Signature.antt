-- ===== src/Files/Signature.antt =====
-- The comparisons with the signatures read only inside the buffer, and decide a prefix.
use qbrain.Prelude.{
  ℕ, zero, suc, ◌+◌, ◌≤◌, ◌<◌, ◌≡◌, refl, ap, ◌∙◌, Bool, false, Option, none, some, [], ◌∷◌, Bytes,
  length, drop, get_elem?, is_empty, ◌==◌, ltb, leb, if◌then◌else◌, arith, Bool-cases, inl, inr,
  starts_with,
}
use qbrain.Files.{
  ImageMeta, unknown, read, has_bytes, has_jpeg_signature, png_signature, jpeg_signature,
  image_meta_max_input_bytes, parse_png, parse_jpeg, parse_image_meta,
}

-- A byte of the buffer, and the rest from there.
byte_of :
    (b : Bytes) (pos : ℕ)
    → pos < length b
    → (c : ℕ) × (get_elem? b pos ≡ some c) × (drop pos b ≡ c ∷ drop (suc pos) b)
byte_of [] pos h = absurd (omega arith)
byte_of (c ∷ b) zero h = (c, refl, refl)
byte_of (c ∷ b) (suc pos) h = byte_of b pos (omega arith)

pub read_lem :
    (b : Bytes) (pos c : ℕ) (next : ℕ → Option ImageMeta)
    → get_elem? b pos ≡ some c
    → read b pos next ≡ next c
unfolding read
read_lem b pos c next e = ap (λ o. elim o [ none ↦ none | some x ↦ next x ]) e

has_bytes_lem :
    (b part : Bytes) (pos : ℕ) (next : Bool → Option ImageMeta)
    → pos + length part ≤ length b
    → has_bytes b part pos next ≡ next (starts_with (drop pos b) part)
unfolding has_bytes starts_with
has_bytes_lem b [] pos next h = refl
has_bytes_lem b (p ∷ part) pos next h =
    let (c, e, d) = byte_of b pos (omega arith) in
    let ih = has_bytes_lem b part (suc pos) next (omega arith) in
    let more = has_bytes b part (suc pos) next in
    read_lem b pos c (λ found. if found == p then more else next false) e
    ∙ rw d (elim (Bool-cases (c == p)) [ inl same ↦ rw same ih | inr other ↦ rw other refl ])

starts_with_short : (s part : Bytes) → length s < length part → starts_with s part ≡ false
unfolding starts_with
starts_with_short s [] h = absurd (omega arith)
starts_with_short [] (p ∷ part) h = refl
starts_with_short (c ∷ s) (p ∷ part) h = ground (arith, starts_with_short s part (omega arith))

signature_lem :
    (b part : Bytes) (next : Bool → Option ImageMeta)
    → (if leb (length part) (length b) then has_bytes b part 0 next else next false)
      ≡ next (starts_with b part)
signature_lem b part next = elim (Bool-cases (leb (length part) (length b))) [
  | inl long ↦ rw long (has_bytes_lem b part 0 next (ground arith))
  | inr short ↦ rw (short, starts_with_short b part (ground arith)) refl
]

-- The parser with the signatures as prefixes.
pub parse_image_meta_lem :
    (b : Bytes)
    → parse_image_meta b ≡ (
        if is_empty b
        then some (unknown "empty input")
        else if ltb image_meta_max_input_bytes (length b)
        then some (unknown "input exceeds 32 MiB bound")
        else if starts_with b png_signature
        then parse_png b
        else if starts_with b jpeg_signature
        then parse_jpeg b
        else some (unknown "no PNG or JPEG signature"))
unfolding parse_image_meta
parse_image_meta_lem b =
    let or_unknown =
      λ (jpeg : Bool). if jpeg then parse_jpeg b else some (unknown "no PNG or JPEG signature") in
    let or_jpeg = λ (png : Bool). if png then parse_png b else has_jpeg_signature b or_unknown in
    ap
      (λ o.
        if is_empty b
        then some (unknown "empty input")
        else if ltb image_meta_max_input_bytes (length b)
        then some (unknown "input exceeds 32 MiB bound")
        else o)
      (signature_lem b png_signature or_jpeg
        ∙ ap (λ o. if starts_with b png_signature then parse_png b else o)
            (signature_lem b jpeg_signature or_unknown))
