-- ===== src/Files/Sniff.antt =====
-- The header parser and the sniffer agree, and the sniffer always names a type.
use qbrain.Prelude.{
  ℕ, zero, suc, ◌≤◌, ◌≡◌, ◌⊎◌, refl, ap, ◌&&◌, true, false, not, some, [], ◌∷◌, Bytes, codes,
  length, take, is_empty, ◌==◌, starts_with, text_eq, arith, Bool-cases, inl, inr,
}
use qbrain.Files.Signature.{parse_image_meta_lem}
use qbrain.Files.{ImageMeta, parse_image_meta, png_signature, jpeg_signature}
use qbrain.Files.Mime.{content_mime, mime_for_ext, norm_ext, sniff_mime}

starts_with-take :
    (n : ℕ) (s part : Bytes) → length part ≤ n → starts_with (take n s) part ≡ starts_with s part
unfolding starts_with
starts_with-take zero s [] h = refl
starts_with-take zero s (p ∷ part) h = absurd (omega arith)
starts_with-take (suc n) [] [] h = refl
starts_with-take (suc n) [] (p ∷ part) h = refl
starts_with-take (suc n) (c ∷ s) [] h = refl
starts_with-take (suc n) (c ∷ s) (p ∷ part) h =
    ap (λ t. (c == p) && t) (starts_with-take n s part (omega arith))

-- A type from the content, and a mismatch exactly if the extension has another type.
abbrev pub SniffedAs : Bytes → Bytes → Bytes → Type 0
SniffedAs type b hint =
    ((sniff_mime b hint).mime ≡ type)
    × ((sniff_mime b hint).content_based ≡ true)
    × ((sniff_mime b hint).ext_mismatch ≡ (
        not (is_empty (mime_for_ext (norm_ext hint)))
        && not (text_eq (mime_for_ext (norm_ext hint)) type)))

png_sniffed :
    (b hint : Bytes) → starts_with b png_signature ≡ true → SniffedAs (codes "image/png") b hint
unfolding sniff_mime content_mime
png_sniffed b hint h = rw (starts_with-take 16 b png_signature (omega arith), h) (refl, refl, refl)

jpeg_sniffed :
    (b hint : Bytes)
    → starts_with b png_signature ≡ false
    → starts_with b jpeg_signature ≡ true
    → SniffedAs (codes "image/jpeg") b hint
unfolding sniff_mime content_mime
jpeg_sniffed b hint other h =
    rw
      (
        starts_with-take 16 b png_signature (omega arith),
        other,
        starts_with-take 16 b jpeg_signature (omega arith),
        h,
      )
      (refl, refl, refl)

unknown_without_signature :
    (b : Bytes) (m : ImageMeta)
    → starts_with b png_signature ≡ false
    → starts_with b jpeg_signature ≡ false
    → parse_image_meta b ≡ some m
    → m.ok ≡ false
unknown_without_signature b m p j e = ground (arith, parse_image_meta_lem b)

-- A buffer whose header the parser knows is sniffed by its content as a PNG or as a JPEG image,
-- whatever the extension, and the mismatch is flagged exactly if the extension has another type.
pub parse_image_meta-SniffedAs :
    (b hint : Bytes) (m : ImageMeta)
    → parse_image_meta b ≡ some m
    → m.ok ≡ true
    → SniffedAs (codes "image/png") b hint ⊎ SniffedAs (codes "image/jpeg") b hint
parse_image_meta-SniffedAs b hint m e ok = elim (Bool-cases (starts_with b png_signature)) [
  | inl png ↦ inl (png_sniffed b hint png)
  | inr other ↦ elim (Bool-cases (starts_with b jpeg_signature)) [
    | inl jpeg ↦ inr (jpeg_sniffed b hint other jpeg)
    | inr no_jpeg ↦ absurd (ground (arith, unknown_without_signature b m other no_jpeg e))
  ]
]
