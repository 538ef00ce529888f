-- ===== src/Embed/Execute.antt =====
-- `execute_embedding_job`: short transactions, each of which first renews the claim of the job, and
-- the requests to the provider between them. Other connections may change the tables before each
-- transaction. A transaction that throws is rolled back.
use Prim.Native.String.{String}
use qbrain.Prelude.{
  ℕ, zero, suc, ◌+◌, ◌-◌, ◌^◌, min, ltb, leb, ◌&&◌, ◌||◌, Bool, false, not, Option, none, some,
  List, [], ◌∷◌, map, Bytes, length, any, all, is_empty, if◌then◌else◌, in_range,
}
use qbrain.Prelude.Int.{ℤ, pos, negsuc}
use qbrain.Jobs.Table.{Status, active, completed, failed, cancelled, Job}
use qbrain.Accounting.Input.{Value, integer_number, field}
use qbrain.Embed.Tables.{
  World, Config, Failure, stop, lost_claim, exception, Attempt, returns, throws, ◌>>=◌, ◌>>◌,
  unless, PageSnapshot, page_snapshot, check_snapshot, in_page,
}
use qbrain.Embed.Batch.{
  Pending, EmbedResult, next_batch, validate_result, apply_batch, unembedded, embed_max_dimensions,
}
use qbrain.Embed.Fence.{fence, record_progress}

-- What is not under the control of the worker: the vendored JSON library, and the provider behind
-- `embed_texts` (`none` is an exception), whose answers may differ from one request to the next.
pub record Host : Type 0 where
  pub parse : Bytes → Option Value
  pub envelope_bytes : Config → ℕ
  pub progress_text : (chunks batches : ℕ) → (outcome : String) → (error : Option String) → Bytes
  pub embed_texts : ℕ → Config → List Bytes → Option EmbedResult

-- The time at which a transaction runs, and what others have done to the tables before it.
pub record Moment : Type 0 where
  pub now : ℕ
  pub others : World → World

-- The local variables of the loop; the first transaction sets `expected`.
pub record Progress : Type 0 where
  pub persisted : ℕ
  pub batches : ℕ
  pub cursor : ℕ
  pub expected : Option PageSnapshot

abbrev pub no_progress : Progress
no_progress = record { persisted = 0; batches = 0; cursor = 0; expected = none }

-- What the first transaction of a round has found.
pub data Opened : Type 0 where
  finished : Opened
  opened : PageSnapshot → Pending → List Pending → Opened

abbrev pub expect_snapshot : Option PageSnapshot → ℕ → World → Attempt PageSnapshot
expect_snapshot none page_id w = page_snapshot page_id w
expect_snapshot (some s) page_id w = do check_snapshot page_id s w; returns s

-- The id of the last row of a batch.
abbrev pub last_id : Pending → List Pending → ℕ
last_id p [] = p.id
last_id p (q ∷ qs) = last_id q qs

-- A failing job whose claim is lost is left to its new owner.
abbrev pub or_same : World → Attempt World → World
or_same w (returns w') = w'
or_same w (throws e) = w

module _ (host : Host) (job : Job) where
  -- The transaction of `fail`.
  unfoldable pub fail_batch : Status → String → String → ℕ → Progress → World → Attempt World
  unfolding fence record_progress
  fail_batch status outcome message now progress w = do
    held ← fence job now w
    record_progress job status
        (host.progress_text progress.persisted progress.batches outcome (some message))
        (some message) now held

  -- The handlers of the exceptions.
  unfoldable pub settle : Failure → Moment → Progress → World → World
  unfolding fail_batch
  settle lost_claim m progress w = w
  settle exception m progress w =
      let w' = m.others w in
      or_same w'
        (fail_batch failed "execution_error" "embedding execution failed" m.now progress w')
  settle (stop outcome message is_cancelled) m progress w =
      let w' = m.others w in
      or_same w'
        (fail_batch (if is_cancelled then cancelled else failed) outcome message m.now progress w')

-- The request between the transactions.
unfoldable pub request : Host → Config → ℕ → List Pending → Attempt EmbedResult
unfolding validate_result
request host cfg k batch = elim (host.embed_texts k cfg (map (λ p. p.text) batch)) [
  | none ↦ throws exception
  | some r ↦ do validate_result cfg (length batch) r; returns r
]

abbrev pub stored : PageSnapshot → Pending → List Pending → Progress → Progress
stored snapshot p ps progress = record {
  persisted = progress.persisted + length (p ∷ ps);
  batches = progress.batches + 1;
  cursor = last_id p ps;
  expected = some snapshot;
}

module _ (host : Host) (cfg : Config) (job : Job) (page_id : ℕ) where
  unfoldable pub close_batch :
      PageSnapshot → List Pending → ℕ → Progress → World → Attempt (World × Opened)
  unfolding record_progress
  close_batch snapshot (p ∷ ps) now progress w = returns (w, opened snapshot p ps)
  close_batch snapshot [] now progress w = do
    unless (any (λ c. in_page page_id c && unembedded c) w.chunks)
        (stop "stale" "embedding work changed; retry explicitly" false)
    w' ←
        record_progress job completed
          (host.progress_text progress.persisted progress.batches "completed" none) none now w
    returns (w', finished)

  -- The first transaction of a round: the next batch, or the end of the job.
  unfoldable pub open_batch : ℕ → Progress → World → Attempt (World × Opened)
  unfolding fence page_snapshot check_snapshot next_batch close_batch
  open_batch now progress w = do
    held ← fence job now w
    snapshot ← expect_snapshot progress.expected page_id held
    batch ← next_batch cfg (host.envelope_bytes cfg) page_id progress.cursor held.chunks
    close_batch snapshot batch now progress held

  -- The second transaction of a round: the vectors of the batch are stored.
  unfoldable pub store_batch :
      PageSnapshot → List Pending → EmbedResult → ℕ → Progress → World → Attempt World
  unfolding fence check_snapshot apply_batch record_progress
  store_batch snapshot batch r now progress w = do
    held ← fence job now w
    check_snapshot page_id snapshot held
    chunks ← apply_batch page_id r.model batch r.vectors held.chunks
    record_progress job active
        (host.progress_text (progress.persisted + length batch) (progress.batches + 1) "partial"
          none)
        none now (record held { chunks = chunks })

  -- The loop from its `k`-th transaction; the tables and the persisted rows, or `none` without fuel.
  unfoldable pub embed_rounds : (ℕ → Moment) → ℕ → ℕ → Progress → World → Option (World × ℕ)
  unfolding open_batch request store_batch settle
  embed_rounds at zero k progress w = none
  embed_rounds at (suc fuel) k progress w =
      let w0 = (at k).others w in
      elim (open_batch (at k).now progress w0) [
        | throws e ↦ some (settle host job e (at (suc k)) progress w0, progress.persisted)
        | returns (w1, finished) ↦ some (w1, progress.persisted)
        | returns (w1, opened snapshot p ps) ↦ elim (request host cfg k (p ∷ ps)) [
          | throws e ↦ some (settle host job e (at (suc k)) progress w1, progress.persisted)
          | returns r ↦
              let w2 = (at (suc k)).others w1 in
              elim (store_batch snapshot (p ∷ ps) r (at (suc k)).now progress w2) [
                | throws e ↦
                    some (settle host job e (at (suc (suc k))) progress w2, progress.persisted)
                | returns w3 ↦ embed_rounds at fuel (suc (suc k)) (stored snapshot p ps progress) w3
              ]
        ]
      ]

abbrev invalid_payload : Failure
invalid_payload = stop "invalid_input" "invalid embedding job payload" false

-- A value that is no object, or without the key, has `null` there.
abbrev pub payload_page : Value → Attempt ℕ
payload_page j = elim (field j "page_id") [
  | integer_number (pos n) ↦ if in_range 1 (2 ^ 63 - 1) n then returns n else throws invalid_payload
  | _ ↦ throws invalid_payload
]

unfoldable pub valid_embedding_model : Bytes → Bool
valid_embedding_model model =
    not (is_empty model) && leb (length model) 256 && all (λ c. ltb 0x20 c && ltb c 0x7f) model

abbrev pub valid_dimensions : ℤ → Bool
valid_dimensions (pos n) = leb n embed_max_dimensions
valid_dimensions (negsuc n) = false

-- The checks before the loop.
unfoldable pub read_payload : Host → Config → Job → Attempt ℕ
unfolding field valid_embedding_model
read_payload host cfg job = elim (host.parse job.payload_json) [
  | none ↦ throws exception
  | some j ↦ do
    page_id ← payload_page j
    unless
        (not (valid_embedding_model cfg.embedding_model)
          || not (valid_dimensions cfg.embedding_dimensions))
        (stop "invalid_input" "invalid embedding configuration" false)
    returns page_id
]

unfoldable pub bounded_count : ℕ → ℕ
bounded_count n = min n (2 ^ 31 - 1)

abbrev pub bounded_result : World × ℕ → World × ℕ
bounded_result (w, n) = (w, bounded_count n)

abbrev pub map_option {ℓ κ} : {A : Type ℓ} {B : Type κ} → (A → B) → Option A → Option B
map_option f none = none
map_option f (some a) = some (f a)

unfoldable pub execute_embedding_job :
    Host → Config → Job → (ℕ → Moment) → ℕ → World → Option (World × ℕ)
unfolding read_payload embed_rounds settle bounded_count
execute_embedding_job host cfg job at fuel w = elim (read_payload host cfg job) [
  | throws e ↦ some (settle host job e (at 0) no_progress w, 0)
  | returns page_id ↦
      map_option bounded_result (embed_rounds host cfg job page_id at fuel 0 no_progress w)
]
