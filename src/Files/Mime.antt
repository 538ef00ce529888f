-- ===== src/Files/Mime.antt =====
-- The type of a file by its first bytes and its extension: `sniff_mime` of
-- src/qbrain/files/image_meta.cpp.
use qbrain.Prelude.{
  ℕ, ◌+◌, ◌-◌, ◌&&◌, ◌||◌, Bool, true, false, not, [], ◌∷◌, map, Bytes, codes, length, take, drop,
  get_or, is_empty, all, ◌==◌, leb, in_range, if◌then◌else◌, starts_with, text_eq, text_mem,
}
use qbrain.Files.{png_signature, jpeg_signature}

pub record MimeResult : Type 0 where
  pub mime : Bytes
  pub content_based : Bool
  pub ext_mismatch : Bool

-- What is behind the last dot, or the whole hint if there is none.
unfoldable pub after_last_dot : Bytes → Bytes → Bytes
after_last_dot [] tail = tail
after_last_dot (c ∷ s) tail = after_last_dot s (if c == b'.' then s else tail)

abbrev pub lower : ℕ → ℕ
lower c = if in_range b'A' b'Z' c then c - b'A' + b'a' else c

unfoldable pub norm_ext : Bytes → Bytes
norm_ext hint = map lower (after_last_dot hint hint)

unfoldable pub mime_for_ext : Bytes → Bytes
mime_for_ext ext =
    if text_eq ext (codes "png")
    then codes "image/png"
    else if text_mem ext (codes "jpg" ∷ codes "jpeg" ∷ codes "jpe" ∷ codes "jfif" ∷ [])
    then codes "image/jpeg"
    else if text_eq ext (codes "gif")
    then codes "image/gif"
    else if text_mem ext (codes "bmp" ∷ codes "dib" ∷ [])
    then codes "image/bmp"
    else if text_eq ext (codes "webp")
    then codes "image/webp"
    else if text_eq ext (codes "svg")
    then codes "image/svg+xml"
    else if text_eq ext (codes "ico")
    then codes "image/x-icon"
    else if text_mem ext (codes "tif" ∷ codes "tiff" ∷ [])
    then codes "image/tiff"
    else if text_mem ext (codes "txt" ∷ codes "text" ∷ codes "log" ∷ [])
    then codes "text/plain"
    else if text_mem ext (codes "md" ∷ codes "markdown" ∷ [])
    then codes "text/markdown"
    else if text_eq ext (codes "csv")
    then codes "text/csv"
    else if text_mem ext (codes "html" ∷ codes "htm" ∷ [])
    then codes "text/html"
    else if text_eq ext (codes "css")
    then codes "text/css"
    else if text_mem ext (codes "js" ∷ codes "mjs" ∷ [])
    then codes "text/javascript"
    else if text_eq ext (codes "json")
    then codes "application/json"
    else if text_eq ext (codes "xml")
    then codes "application/xml"
    else if text_mem ext (codes "yaml" ∷ codes "yml" ∷ [])
    then codes "application/yaml"
    else if text_eq ext (codes "pdf")
    then codes "application/pdf"
    else if text_eq ext (codes "zip")
    then codes "application/zip"
    else if text_eq ext (codes "gz")
    then codes "application/gzip"
    else if text_eq ext (codes "mp3")
    then codes "audio/mpeg"
    else if text_eq ext (codes "wav")
    then codes "audio/wav"
    else if text_eq ext (codes "mp4")
    then codes "video/mp4"
    else if text_eq ext (codes "mov")
    then codes "video/quicktime"
    else if text_eq ext (codes "avi")
    then codes "video/x-msvideo"
    else []

abbrev pub is_printable_ascii : ℕ → Bool
is_printable_ascii c = in_range 0x20 0x7e c || c == 0x09 || c == 0x0a || c == 0x0d

abbrev at : Bytes → ℕ → ℕ
at p i = get_or p i 0

-- "BM", and the reserved fields zero.
abbrev pub is_bmp : Bytes → Bool
is_bmp p =
    leb 14 (length p)
    && at p 0 == b'B'
    && at p 1 == b'M'
    && at p 6 == 0
    && at p 7 == 0
    && at p 8 == 0
    && at p 9 == 0

abbrev pub is_webp : Bytes → Bool
is_webp p =
    leb 12 (length p) && starts_with p (codes "RIFF") && starts_with (drop 8 p) (codes "WEBP")

-- Only the first 16 bytes count.
unfoldable pub content_mime : Bytes → Bytes
content_mime b =
    let p = take 16 b in
    if starts_with p png_signature
    then codes "image/png"
    else if starts_with p jpeg_signature
    then codes "image/jpeg"
    else if starts_with p (codes "GIF87a") || starts_with p (codes "GIF89a")
    then codes "image/gif"
    else if is_bmp p
    then codes "image/bmp"
    else if is_webp p
    then codes "image/webp"
    else if starts_with p (codes "%PDF-")
    then codes "application/pdf"
    else if not (is_empty p) && all is_printable_ascii p
    then codes "text/plain"
    else []

unfoldable pub sniff_mime : Bytes → Bytes → MimeResult
sniff_mime b ext_hint =
    let content = content_mime b in
    let ext_type = mime_for_ext (norm_ext ext_hint) in
    if not (is_empty content)
    then record {
      mime = content;
      content_based = true;
      ext_mismatch = not (is_empty ext_type) && not (text_eq ext_type content);
    }
    else record {
      mime = if is_empty ext_type then codes "application/octet-stream" else ext_type;
      content_based = false;
      ext_mismatch = false;
    }
