-- ===== src/Chunker/Cover.antt =====
-- No paragraph is lost or cut, and how long a chunk may become.
use mathlib.Core.Path.{subst}
use qbrain.Prelude.{
  ℕ, ◌+◌, ◌-◌, ◌≤◌, max, ◌≡◌, refl, sym, ap, ◌∙◌, ◌⊎◌, inl, inr, ◌&&◌, true, false, List, [], ◌∷◌,
  ◌++◌, Bytes, length, length-append, length-drop, drop, is_empty, ltb, arith, All, All-map,
  Bool-cases, append_assoc, append-nil, codes,
}
use qbrain.Prelude.Int.{ℤ, pos, leb_ℤ, pos_part}
use qbrain.Chunker.{
  ChunkerOpts, blank_line, paragraphs_from, with_overlap, pack, or_title, or_single, page_text,
  chunk_markdown,
}
use qbrain.Chunker.Blocks.{Within, longest, Block, cores, joined, IsBlock, paragraphs_from-Blocks}
use qbrain.Chunker.Chunks.{
  NoneEmpty, or_single-NoneEmpty, pack-NoneEmpty, paragraphs_from-NoneEmpty, append-is_empty,
  with_overlap-is_empty,
}

abbrev pub WithinOne : Bytes → List Bytes → Type 0
WithinOne p [] = true ≡ false
WithinOne p (c ∷ cs) = Within p c ⊎ WithinOne p cs

Within-append : (p c s : Bytes) → Within p c → Within p (c ++ s)
Within-append p c s (a, b, e) =
    (a, b ++ s, rw e (append_assoc a (p ++ b) s ∙ ap (λ t. a ++ t) (append_assoc p b s)))

Within-last : (s p : Bytes) → Within p (s ++ blank_line ++ p)
Within-last s p = (s ++ blank_line, [], ap (λ t. (s ++ blank_line) ++ t) (sym (append-nil p)))

with_overlap-Within : (overlap : ℤ) (cur p : Bytes) → Within p (with_overlap overlap cur p)
with_overlap-Within overlap cur p =
    elim (Bool-cases (ltb 0 (pos_part overlap) && ltb (pos_part overlap) (length cur))) [
      | inl some_tail ↦ rw some_tail (Within-last (drop (length cur - pos_part overlap) cur) p)
      | inr no_tail ↦ rw no_tail ([], [], sym (append-nil p))
    ]

-- The two ways of the loop with an open chunk.
module _ (opts : ChunkerOpts) (cur p : Bytes) (paras : List Bytes)
    (full : is_empty cur ≡ false) where
  pack_fits :
      leb_ℤ (pos (length cur + 2 + length p)) opts.target_chars ≡ true
      → pack opts (cur ++ blank_line ++ p) paras ≡ pack opts cur (p ∷ paras)
  unfolding pack
  pack_fits fits = rw (full, fits) refl

  pack_over :
      leb_ℤ (pos (length cur + 2 + length p)) opts.target_chars ≡ false
      → (cur ∷ pack opts (with_overlap opts.overlap cur p) paras) ≡ pack opts cur (p ∷ paras)
  unfolding pack
  pack_over over = rw (full, over) refl

-- What stands in the open chunk, and each paragraph to come, stands in one of the chunks.
abbrev Covers : Bytes → List Bytes → List Bytes → Type 0
Covers cur paras cs =
    ((q : Bytes) → Within q cur → WithinOne q cs) × All (λ p. WithinOne p cs) paras

pack_single :
    (opts : ChunkerOpts) (cur : Bytes) → is_empty cur ≡ false → (cur ∷ []) ≡ pack opts cur []
unfolding pack
pack_single opts cur full = rw full refl

pack-WithinOne :
    (opts : ChunkerOpts) (cur : Bytes) (paras : List Bytes)
    → is_empty cur ≡ false
    → NoneEmpty paras
    → Covers cur paras (pack opts cur paras)
pack-WithinOne opts cur [] full h =
    subst (Covers cur []) (pack_single opts cur full) (λ q w. inl w, tt)
pack-WithinOne opts cur (p ∷ paras) full (f, fs) =
    let joined = cur ++ blank_line ++ p in
    let tail = with_overlap opts.overlap cur p in
    elim (Bool-cases (leb_ℤ (pos (length cur + 2 + length p)) opts.target_chars)) [
      | inl fits ↦
          let (here, rest) =
            pack-WithinOne opts joined paras (append-is_empty (cur ++ blank_line) p f) fs in
          subst (Covers cur (p ∷ paras)) (pack_fits opts cur p paras full fits) (
            λ q w.
                here q (Within-append q (cur ++ blank_line) p (Within-append q cur blank_line w)),
            (here p (Within-last cur p), rest),
          )
      | inr over ↦
          let (here, rest) =
            pack-WithinOne opts tail paras (with_overlap-is_empty opts.overlap cur p f) fs in
          subst (Covers cur (p ∷ paras)) (pack_over opts cur p paras full over) (
            λ q w. inl w,
            (
              inr (here p (with_overlap-Within opts.overlap cur p)),
              All-map {P = λ q. WithinOne q (pack opts tail paras)} (λ q w. inr w) paras rest,
            ),
          )
    ]

-- The bound on a chunk.
abbrev pub chunk_bound : ChunkerOpts → List Bytes → ℕ
chunk_bound opts paras =
    max (pos_part opts.target_chars) (pos_part opts.overlap + 2 + longest paras)

length-with_overlap :
    (overlap : ℤ) (cur p : Bytes)
    → length (with_overlap overlap cur p) ≤ pos_part overlap + 2 + length p
length-with_overlap overlap cur p =
    let tail = drop (length cur - pos_part overlap) cur in
    elim (Bool-cases (ltb 0 (pos_part overlap) && ltb (pos_part overlap) (length cur))) [
      | inl some_tail ↦ rw some_tail (
          omega (
            arith,
            length-append (tail ++ blank_line) p,
            length-append tail blank_line,
            length-drop (length cur - pos_part overlap) cur,
          ))
      | inr no_tail ↦ rw no_tail (omega arith)
    ]

pack_bound :
    (opts : ChunkerOpts) (cur : Bytes) (paras : List Bytes) (bound : ℕ)
    → is_empty cur ≡ false
    → NoneEmpty paras
    → length cur ≤ bound
    → chunk_bound opts paras ≤ bound
    → All (λ c. length c ≤ bound) (pack opts cur paras)
pack_bound opts cur [] bound full h short le =
    subst (All (λ c. length c ≤ bound)) (pack_single opts cur full) (short, tt)
pack_bound opts cur (p ∷ paras) bound full (f, fs) short le =
    elim (Bool-cases (leb_ℤ (pos (length cur + 2 + length p)) opts.target_chars)) [
      | inl fits ↦
          let small : length cur + 2 + length p ≤ pos_part opts.target_chars = ground arith in
          let size = length-append (cur ++ blank_line) p in
          let begun = length-append cur blank_line in
          subst (All (λ c. length c ≤ bound)) (pack_fits opts cur p paras full fits) (
            pack_bound opts (cur ++ blank_line ++ p) paras bound
              (append-is_empty (cur ++ blank_line) p f) fs (omega (arith, size, begun))
              (omega arith))
      | inr over ↦
          let size = length-with_overlap opts.overlap cur p in
          subst (All (λ c. length c ≤ bound)) (pack_over opts cur p paras full over) (
            short,
            pack_bound opts (with_overlap opts.overlap cur p) paras bound
                (with_overlap-is_empty opts.overlap cur p f) fs (omega (arith, size)) (omega arith),
          )
    ]

pack_first :
    (opts : ChunkerOpts) (p : Bytes) (paras : List Bytes)
    → pack opts [] (p ∷ paras) ≡ pack opts p paras
unfolding pack
pack_first opts p paras = refl

or_single-same :
    (title : Bytes) (chunks : List Bytes) (p : Bytes)
    → WithinOne p chunks
    → or_single title chunks ≡ chunks
or_single-same title [] p h = absurd (cc)
or_single-same title (c ∷ cs) p h = refl

-- Each paragraph stands whole in a chunk, no chunk is empty, and each keeps the bound, unless it is
-- the only one and stands for a page without text.
abbrev CutsParagraphs : ChunkerOpts → Bytes → List Bytes → List Bytes → Type 0
CutsParagraphs opts title paras chunks =
    All (λ p. WithinOne p chunks) paras
    × NoneEmpty chunks
    × ((chunks ≡ or_title title ∷ []) ⊎ All (λ c. length c ≤ chunk_bound opts paras) chunks)

pack-CutsParagraphs :
    (opts : ChunkerOpts) (title : Bytes) (paras : List Bytes)
    → NoneEmpty paras
    → CutsParagraphs opts title paras (or_single title (pack opts [] paras))
pack-CutsParagraphs opts title [] h =
    unfold pack in (tt, (or_single-NoneEmpty title (pack opts [] []) tt).1, inl refl)
pack-CutsParagraphs opts title (p ∷ paras) (f, fs) =
    let (here, rest) = pack-WithinOne opts p paras f fs in
    let first = here p ([], [], sym (append-nil p)) in
    let bound = chunk_bound opts (p ∷ paras) in
    let short = pack_bound opts p paras bound f fs (omega arith) (omega arith) in
    let same = sym (pack_first opts p paras) in
    subst (CutsParagraphs opts title (p ∷ paras))
      (sym (or_single-same title (pack opts p paras) p first) ∙ ap (or_single title) same)
      ((first, rest), pack-NoneEmpty opts p paras fs, inr short)

-- The text that a page is found by: its title as a heading, if it has one, and its body.
abbrev pub indexed_text : Bytes → Bytes → Bytes
indexed_text [] body = body
indexed_text (c ∷ title) body = codes "# " ++ (c ∷ title) ++ (0x0a ∷ 0x0a ∷ []) ++ body

-- The text is a sequence of blocks, with a blank line between each two and none within one. A block
-- is a paragraph with spaces around it, and the paragraph, unless it is empty, stands whole in a chunk.
-- No chunk is empty, and each keeps the bound, unless it is the only one and stands for a page without
-- text.
abbrev pub IsCut : ChunkerOpts → Bytes → Bytes → List Bytes → Type 0
IsCut opts title text chunks =
    (k : Block) × (ks : List Block) × (joined k ks ≡ text)
    × All (IsBlock (λ p. WithinOne p chunks)) (k ∷ ks)
    × NoneEmpty chunks
    × ((chunks ≡ or_title title ∷ [])
        ⊎ All (λ c. length c ≤ chunk_bound opts (cores (k ∷ ks))) chunks)

page_text_lem : (title body : Bytes) → page_text title body ≡ indexed_text title body
page_text_lem [] body = refl
page_text_lem (c ∷ title) body = refl

chunk_markdown_long :
    (title body : Bytes) (opts : ChunkerOpts)
    → leb_ℤ (pos (length (page_text title body))) opts.target_chars ≡ false
    → or_single title
        (pack opts [] (paragraphs_from (length (page_text title body)) (page_text title body)))
      ≡ chunk_markdown title body opts
unfolding chunk_markdown
chunk_markdown_long title body opts long = rw long refl

-- The text as the program makes it.
page_text-IsCut :
    (title body : Bytes) (opts : ChunkerOpts)
    → leb_ℤ (pos (length (page_text title body))) opts.target_chars ≡ false
    → IsCut opts title (page_text title body) (chunk_markdown title body opts)
page_text-IsCut title body opts long =
    let text = page_text title body in
    let paras = paragraphs_from (length text) text in
    let chunks = or_single title (pack opts [] paras) in
    let (covered, full, bound) =
      pack-CutsParagraphs opts title paras (paragraphs_from-NoneEmpty (length text) text) in
    let (k, ks, j, oks, l) =
      paragraphs_from-Blocks (λ p. WithinOne p chunks) (length text) text (omega arith) covered in
    subst (IsCut opts title text) (chunk_markdown_long title body opts long) (
      k,
      ks,
      j,
      oks,
      full,
      subst
          (λ n.
            (chunks ≡ or_title title ∷ [])
            ⊎ All (λ c. length c ≤ max (pos_part opts.target_chars) (pos_part opts.overlap + 2 + n))
                chunks)
          (sym l) bound,
    )

-- A text that is longer than a chunk should be is a sequence of blocks, with a blank line between each
-- two and none within one. A block is a paragraph between spaces, and each paragraph that is not empty
-- stands whole in a chunk; so nothing but spaces and blank lines is lost. No chunk is empty. A chunk
-- is no longer than the target, or than the overlap, two line ends and the longest paragraph; or there
-- is one chunk only, which is the title, or "(empty)".
pub chunk_markdown-IsCut :
    (title body : Bytes) (opts : ChunkerOpts)
    → leb_ℤ (pos (length (indexed_text title body))) opts.target_chars ≡ false
    → IsCut opts title (indexed_text title body) (chunk_markdown title body opts)
chunk_markdown-IsCut title body opts long =
    subst (λ t. IsCut opts title t (chunk_markdown title body opts)) (page_text_lem title body)
      (page_text-IsCut title body opts (rw (page_text_lem title body) long))
