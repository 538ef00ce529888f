-- ===== src/Chunker/Chunks.antt =====
-- What chunks a page gets.
use qbrain.Prelude.{
  ℕ, zero, suc, ◌+◌, ◌≤◌, ◌≡◌, refl, ◌&&◌, false, List, [], ◌∷◌, ◌++◌, Bytes, length, is_empty, ltb,
  arith, All, Bool-cases, inl, inr,
}
use qbrain.Prelude.Int.{ℤ, pos, leb_ℤ, pos_part}
use qbrain.Strings.{trim}
use qbrain.Chunker.{
  ChunkerOpts, blank_line, cut_blank, behind_or_end, paragraphs_from, with_overlap, pack, or_title,
  or_single, page_text, chunk_markdown,
}

-- Every text of a list has a byte.
abbrev pub NoneEmpty : List Bytes → Type 0
NoneEmpty = All (λ s. is_empty s ≡ false)

pub append-is_empty : (s t : Bytes) → is_empty t ≡ false → is_empty (s ++ t) ≡ false
append-is_empty [] t h = h
append-is_empty (c ∷ s) t h = refl

pub paragraphs_from-NoneEmpty : (fuel : ℕ) (text : Bytes) → NoneEmpty (paragraphs_from fuel text)
unfolding paragraphs_from
paragraphs_from-NoneEmpty zero text = tt
paragraphs_from-NoneEmpty (suc fuel) text =
    let rest = paragraphs_from-NoneEmpty fuel (behind_or_end (cut_blank text).1) in
    elim (Bool-cases (is_empty text)) [
      | inl done ↦ rw done tt
      | inr more ↦ rw more (elim (Bool-cases (is_empty (trim (cut_blank text).0))) [
        | inl blank ↦ rw blank rest
        | inr full ↦ rw full (full, rest)
      ])
    ]

pub with_overlap-is_empty :
    (overlap : ℤ) (cur p : Bytes)
    → is_empty p ≡ false
    → is_empty (with_overlap overlap cur p) ≡ false
with_overlap-is_empty overlap cur p h =
    elim (Bool-cases (ltb 0 (pos_part overlap) && ltb (pos_part overlap) (length cur))) [
      | inl some_tail ↦ rw some_tail (append-is_empty _ p h)
      | inr no_tail ↦ rw no_tail h
    ]

pub pack-NoneEmpty :
    (opts : ChunkerOpts) (cur : Bytes) (paras : List Bytes)
    → NoneEmpty paras
    → NoneEmpty (pack opts cur paras)
unfolding pack
pack-NoneEmpty opts cur [] h = elim (Bool-cases (is_empty cur)) [
  | inl e ↦ rw e tt
  | inr full ↦ rw full (full, tt)
]
pack-NoneEmpty opts cur (p ∷ paras) (h, hs) =
    let fresh = pack-NoneEmpty opts p paras hs in
    let longer = pack-NoneEmpty opts (cur ++ blank_line ++ p) paras hs in
    let next = pack-NoneEmpty opts (with_overlap opts.overlap cur p) paras hs in
    elim (Bool-cases (is_empty cur)) [
      | inl e ↦ rw e fresh
      | inr full ↦
          rw full (elim (Bool-cases (leb_ℤ (pos (length cur + 2 + length p)) opts.target_chars)) [
            | inl fits ↦ rw fits longer
            | inr over ↦ rw over (full, next)
          ])
    ]

or_title-is_empty : (title : Bytes) → is_empty (or_title title) ≡ false
or_title-is_empty [] = refl
or_title-is_empty (c ∷ title) = refl

pub or_single-NoneEmpty :
    (title : Bytes) (chunks : List Bytes)
    → NoneEmpty chunks
    → (1 ≤ length (or_single title chunks)) × NoneEmpty (or_single title chunks)
or_single-NoneEmpty title [] h = (omega arith, (or_title-is_empty title, tt))
or_single-NoneEmpty title (chunk ∷ chunks) h = (omega arith, h)

-- Whatever the title, the body and the options, a page has at least one chunk, and no chunk of it is
-- empty.
pub chunk_markdown-NoneEmpty :
    (title body : Bytes) (opts : ChunkerOpts)
    → (1 ≤ length (chunk_markdown title body opts)) × NoneEmpty (chunk_markdown title body opts)
unfolding chunk_markdown
chunk_markdown-NoneEmpty title body opts =
    elim (Bool-cases (leb_ℤ (pos (length (page_text title body))) opts.target_chars)) [
      | inl short ↦ rw short (elim (Bool-cases (is_empty (trim (page_text title body)))) [
        | inl blank ↦ rw blank (omega arith, (or_title-is_empty title, tt))
        | inr full ↦ rw full (omega arith, (full, tt))
      ])
      | inr long ↦
          rw long
            (or_single-NoneEmpty title _ (pack-NoneEmpty opts [] _ (paragraphs_from-NoneEmpty _ _)))
    ]
