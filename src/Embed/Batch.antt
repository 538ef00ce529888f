-- ===== src/Embed/Batch.antt =====
-- A batch of chunks: its choice under the limits of a request (`next_batch`), the check of the
-- vectors that come back (`validate_result`), and their storing (`apply_batch`).
-- A float is its 32-bit pattern.
use qbrain.Prelude.{
  ℕ, ◌+◌, ◌-◌, ◌*◌, ◌/◌, ◌%◌, ◌^◌, min, ◌==◌, ltb, leb, ◌&&◌, ◌||◌, Bool, true, false, not, none,
  some, List, [], ◌∷◌, Bytes, codes, length, count, take, select, all, any, is_empty, if◌then◌else◌,
  text_eq,
}
use qbrain.Prelude.Int.{pos, negsuc}
use qbrain.Utf8.{valid_utf8}
use qbrain.Embed.Tables.{
  Chunk, Config, Failure, stop, Attempt, returns, throws, ◌>>=◌, ◌>>◌, unless, in_page,
}

abbrev pub embed_max_batch : ℕ
embed_max_batch = 2048

abbrev pub embed_max_dimensions : ℕ
embed_max_dimensions = 16384

abbrev pub embed_max_values : ℕ
embed_max_values = 1024 * 1024

abbrev pub http_max_request_bytes : ℕ
http_max_request_bytes = 32 * 1024 * 1024

abbrev pub http_default_response_bytes : ℕ
http_default_response_bytes = 8 * 1024 * 1024

abbrev pub response_value_budget : ℕ
response_value_budget = (http_default_response_bytes - 65536) / 32

-- `a - b` on `size_t`.
abbrev pub size_minus : ℕ → ℕ → ℕ
size_minus a b = if leb b a then a - b else a + 2 ^ 64 - b

abbrev pub too_large : Failure
too_large = stop "invalid_input" "embedding input exceeds request byte limit" false

-- The bytes of a character of a JSON text.
abbrev pub escaped_bytes : ℕ → ℕ
escaped_bytes c =
    if c == b'"' || c == 92 || c == 8 || c == 12 || c == 10 || c == 13 || c == 9
    then 2
    else if ltb c 0x20
    then 6
    else 1

unfoldable pub count_bytes : ℕ → Bytes → Attempt ℕ
count_bytes n [] = returns n
count_bytes n (c ∷ s) =
    let rest = count_bytes (n + escaped_bytes c) s in
    if ltb (size_minus http_max_request_bytes n) (escaped_bytes c) then throws too_large else rest

unfoldable pub json_text_bytes : Bytes → Attempt ℕ
unfolding count_bytes
json_text_bytes text = do
  unless (not (valid_utf8 text)) (stop "invalid_input" "embedding input is not valid UTF-8" false)
  count_bytes 2 text

pub record Pending : Type 0 where
  pub id : ℕ
  pub index : ℕ
  pub text : Bytes

-- `embedding IS NULL OR length(embedding)=0`.
abbrev pub unembedded : Chunk → Bool
unembedded c = elim c.embedding [ none ↦ true | some blob ↦ is_empty blob ]

-- `page_id=? AND id>? AND (embedding IS NULL OR length(embedding)=0)`.
abbrev pub is_next : ℕ → ℕ → Chunk → Bool
is_next page_id after c = in_page page_id c && ltb after c.id && unembedded c

abbrev pub pending_of : Chunk → Pending
pending_of c = record { id = c.id; index = c.chunk_index; text = c.text }

abbrev pub has_dimensions : Config → Bool
has_dimensions cfg = elim cfg.embedding_dimensions [ pos n ↦ ltb 0 n | negsuc _ ↦ false ]

abbrev pub dimensions : Config → ℕ
dimensions cfg = elim cfg.embedding_dimensions [ pos n ↦ n | negsuc _ ↦ 0 ]

-- The width that a vector may have, and the number of texts that a response can answer.
abbrev pub vector_width : Config → ℕ
vector_width cfg =
    if cfg.mock then 3 else if has_dimensions cfg then dimensions cfg else embed_max_dimensions

abbrev pub batch_limit : Config → ℕ
batch_limit cfg =
    min embed_max_batch (min embed_max_values response_value_budget / vector_width cfg)

-- The loop over the selected rows: `first` while no row has been taken, `bytes` the size so far.
unfoldable pub fill_batch : Bool → ℕ → List Chunk → Attempt (List Pending)
unfolding json_text_bytes
fill_batch first bytes [] = returns []
fill_batch first bytes (c ∷ cs) =
    let rest = λ (n : ℕ). fill_batch false n cs in
    do
      unless (ltb http_max_request_bytes (length c.text)) too_large
      n ← json_text_bytes c.text
      let size = n + (if first then 0 else 1)
      if ltb (size_minus http_max_request_bytes bytes) size
          then (if first then throws too_large else returns [])
          else (do batch ← rest (bytes + size); returns (pending_of c ∷ batch))

-- `envelope` is the size of the request without its texts.
unfoldable pub next_batch :
    Config → (envelope page_id after : ℕ) → List Chunk → Attempt (List Pending)
unfolding fill_batch
next_batch cfg envelope page_id after cs =
    fill_batch true envelope (take (batch_limit cfg) (select (is_next page_id after) cs))

pub record EmbedResult : Type 0 where
  pub good : Bool
  pub vectors : List (List ℕ)
  pub model : Bytes

unfoldable pub active_embedding_model : Config → Bytes
active_embedding_model cfg = if cfg.mock then codes "mock-embedding" else cfg.embedding_model

abbrev pub is_finite_float : ℕ → Bool
is_finite_float f = not (f / 2 ^ 23 % 2 ^ 8 == 255)

abbrev pub is_nonzero_float : ℕ → Bool
is_nonzero_float f = not (f % 2 ^ 31 == 0)

abbrev pub invalid_result : Failure
invalid_result = stop "provider_error" "invalid embedding batch result" false

-- Is a vector refused? `width` is that of the vectors before, 0 at the first.
abbrev pub is_bad_vector : Config → (total width : ℕ) → List ℕ → Bool
is_bad_vector cfg total width v =
    is_empty v
    || ltb embed_max_dimensions (length v)
    || ltb (embed_max_values - total) (length v)
    || (ltb 0 width && not (width == length v))
    || (not cfg.mock && has_dimensions cfg && not (length v == dimensions cfg))
    || not (all is_finite_float v)
    || not (any is_nonzero_float v)

unfoldable pub check_vectors : Config → (total width : ℕ) → List (List ℕ) → Attempt (Unit {0})
check_vectors cfg total width [] = returns tt
check_vectors cfg total width (v ∷ vs) =
    let rest = check_vectors cfg (total + length v) (length v) vs in
    if is_bad_vector cfg total width v then throws invalid_result else rest

unfoldable pub validate_result : Config → ℕ → EmbedResult → Attempt (Unit {0})
unfolding check_vectors active_embedding_model
validate_result cfg n r = do
  unless (not r.good) (stop "provider_error" "embedding provider request failed" false)
  unless (not (length r.vectors == n) || not (text_eq r.model (active_embedding_model cfg)))
      invalid_result
  check_vectors cfg 0 0 r.vectors

-- `search::pack_f32`: four bytes a float, the lowest first.
unfoldable pub pack_f32 : List ℕ → Bytes
pack_f32 [] = []
pack_f32 (f ∷ v) =
    f % 2 ^ 8 ∷ f / 2 ^ 8 % 2 ^ 8 ∷ f / 2 ^ 16 % 2 ^ 8 ∷ f / 2 ^ 24 % 2 ^ 8 ∷ pack_f32 v

-- UPDATE content_chunks SET … WHERE …: the rows after, and the number of selected rows.
unfoldable pub rewrite_chunks : (Chunk → Bool) → (Chunk → Chunk) → List Chunk → List Chunk
rewrite_chunks selects set [] = []
rewrite_chunks selects set (c ∷ cs) =
    (if selects c then set c else c) ∷ rewrite_chunks selects set cs

-- The WHERE of the UPDATE: the row is as it was read, and still without an embedding.
abbrev pub is_unchanged : ℕ → Pending → Chunk → Bool
is_unchanged page_id p c =
    c.id == p.id
    && c.page_id == page_id
    && c.chunk_index == p.index
    && text_eq c.text p.text
    && unembedded c

abbrev pub with_vector : Bytes → List ℕ → Chunk → Chunk
with_vector model v c = record c {
  embedding = some (pack_f32 v);
  dim = some (length v);
  model = some model;
}

-- The vectors are as many as the rows of the batch, which `validate_result` has checked.
unfoldable pub apply_batch :
    ℕ → Bytes → List Pending → List (List ℕ) → List Chunk → Attempt (List Chunk)
unfolding rewrite_chunks
apply_batch page_id model [] vs cs = returns cs
apply_batch page_id model (p ∷ ps) [] cs = returns cs
apply_batch page_id model (p ∷ ps) (v ∷ vs) cs =
    let rest =
      apply_batch page_id model ps vs
        (rewrite_chunks (is_unchanged page_id p) (with_vector model v) cs) in
    if count (is_unchanged page_id p) cs == 1
    then rest
    else throws (stop "stale" "embedding chunk changed; retry explicitly" false)
