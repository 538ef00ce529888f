-- ===== src/Chunker.antt =====
-- src/qbrain/ingest/chunker.cpp: the chunks that a page is indexed by. Sizes are below 2^31, so the
-- cast to `int` keeps them.
pub mod Chunks
pub mod Blocks
pub mod Cover
pub mod Tests
use qbrain.Prelude.{
  ℕ, zero, suc, ◌+◌, ◌-◌, ◌&&◌, Bool, true, false, not, Option, none, some, List, [], ◌∷◌, ◌++◌,
  Bytes, codes, length, drop, is_empty, ltb, if◌then◌else◌, starts_with,
}
use qbrain.Prelude.Int.{ℤ, pos, leb_ℤ, pos_part}
use qbrain.Strings.{trim}

pub record ChunkerOpts : Type 0 where
  pub target_chars : ℤ
  pub overlap : ℤ

abbrev pub blank_line : Bytes
blank_line = 0x0a ∷ 0x0a ∷ []

-- What is before the first blank line, and what is behind it if there is one.
unfoldable pub cut_blank : Bytes → Bytes × Option Bytes
cut_blank [] = ([], none)
cut_blank (c ∷ s) =
    let (before, behind) = cut_blank s in
    if starts_with (c ∷ s) blank_line then ([], some (drop 1 s)) else (c ∷ before, behind)

abbrev pub behind_or_end : Option Bytes → Bytes
behind_or_end none = []
behind_or_end (some s) = s

-- The paragraphs that are not blank; each round takes at least one byte off, so the length is fuel.
unfoldable pub paragraphs_from : ℕ → Bytes → List Bytes
paragraphs_from zero text = []
paragraphs_from (suc fuel) text =
    let (piece, behind) = cut_blank text in
    let rest = paragraphs_from fuel (behind_or_end behind) in
    if is_empty text then [] else if is_empty (trim piece) then rest else trim piece ∷ rest

-- The tail of a finished chunk that the next one begins with.
abbrev pub with_overlap : ℤ → Bytes → Bytes → Bytes
with_overlap overlap cur p =
    if ltb 0 (pos_part overlap) && ltb (pos_part overlap) (length cur)
    then drop (length cur - pos_part overlap) cur ++ blank_line ++ p
    else p

-- The loop that fills the chunks: `cur` is the one that is open.
unfoldable pub pack : ChunkerOpts → Bytes → List Bytes → List Bytes
pack opts cur [] = if is_empty cur then [] else cur ∷ []
pack opts cur (p ∷ paras) =
    let fresh = pack opts p paras in
    let longer = pack opts (cur ++ blank_line ++ p) paras in
    let next = pack opts (with_overlap opts.overlap cur p) paras in
    if is_empty cur
    then fresh
    else if leb_ℤ (pos (length cur + 2 + length p)) opts.target_chars
    then longer
    else cur ∷ next

abbrev pub or_title : Bytes → Bytes
or_title title = if is_empty title then codes "(empty)" else title

abbrev pub or_single : Bytes → List Bytes → List Bytes
or_single title [] = or_title title ∷ []
or_single title (chunk ∷ chunks) = chunk ∷ chunks

abbrev pub page_text : Bytes → Bytes → Bytes
page_text title body = if is_empty title then body else codes "# " ++ title ++ blank_line ++ body

unfoldable pub chunk_markdown : Bytes → Bytes → ChunkerOpts → List Bytes
chunk_markdown title body opts =
    let text = page_text title body in
    if leb_ℤ (pos (length text)) opts.target_chars
    then (if is_empty (trim text) then or_title title else trim text) ∷ []
    else or_single title (pack opts [] (paragraphs_from (length text) text))
