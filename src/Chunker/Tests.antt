-- ===== src/Chunker/Tests.antt =====
-- A run of the chunker, and the theorem on it at a concrete page.
use qbrain.Prelude.{◌≤◌, ◌≡◌, refl, ◌++◌, [], ◌∷◌, Bytes, codes, length, starts_with}
use qbrain.Prelude.Int.{pos}
use qbrain.Strings.{trim}
use qbrain.Chunker.{ChunkerOpts, blank_line, chunk_markdown, pack, paragraphs_from, cut_blank}
use qbrain.Chunker.Cover.{IsCut, indexed_text, chunk_markdown-IsCut}
use qbrain.Chunker.Chunks.{NoneEmpty, chunk_markdown-NoneEmpty}

abbrev small : ChunkerOpts
small = record { target_chars = pos 7; overlap = pos 2 }

abbrev body : Bytes
body = codes "abcd" ++ blank_line ++ codes "efgh"

chunked :
    chunk_markdown [] body small ≡ codes "abcd" ∷ (codes "cd" ++ blank_line ++ codes "efgh") ∷ []
unfolding chunk_markdown pack paragraphs_from cut_blank trim starts_with
chunked = refl

some_chunks :
    (1 ≤ length (chunk_markdown (codes "t") body small))
    × NoneEmpty (chunk_markdown (codes "t") body small)
some_chunks = chunk_markdown-NoneEmpty (codes "t") body small

chunk_markdown-IsCut_example :
    IsCut small (codes "t") (indexed_text (codes "t") body) (chunk_markdown (codes "t") body small)
chunk_markdown-IsCut_example = chunk_markdown-IsCut (codes "t") body small refl
