-- ===== src/Embed/Drain.antt =====
-- The loops that drive the handlers: `drain_embedding_jobs` of embedding_queue.cpp, and
-- `handle_extract_facts`, `process_one` and `drain_jobs` of src/qbrain/jobs/minions.cpp.
use qbrain.Prelude.{
  ℕ, zero, suc, ◌+◌, ◌*◌, ◌&&◌, ◌||◌, Bool, true, false, Option, none, some, List, [], ◌∷◌, Bytes,
  codes, is_empty, text_eq, if◌then◌else◌,
}
use qbrain.Prelude.Int.{ℤ, pos}
use qbrain.Jobs.Table.{Job, is_waiting, is_active}
use qbrain.Jobs.Text.{Json}
use qbrain.Jobs.Queue.{claim_job, complete_job, fail_job, first_job, lock_expired}
use qbrain.Accounting.Input.{Value, Members, object, string, find_member}
use qbrain.Embed.Tables.{World, Config}
use qbrain.Embed.Execute.{Host, Moment, execute_embedding_job, bounded_count}
use qbrain.Embed.Fence.{lease_seconds}

-- The libraries of the job queue, and `Brain::extract_facts_from_page`, which writes the table of
-- facts and returns how many it has written.
pub record Services : Type 0 where
  pub host : Host
  pub json : Json
  pub facts_text : ℕ → Bytes → Bytes
  pub extract_facts : World → (slug source_id : Bytes) → ℕ

-- What one round of a loop takes from outside: the moments of its statements, the fresh token of
-- `new_embedding_claim_token`, the configuration, and the moments and the fuel of an execution.
pub record Turn : Type 0 where
  pub seek : Moment
  pub claim : Moment
  pub finish : Moment
  pub token : Bytes
  pub cfg : Config
  pub at : ℕ → Moment
  pub fuel : ℕ

unfoldable pub claim_in : Bytes → ℤ → Bytes → List Bytes → Moment → World → World × Option Job
claim_in token lock_ms queue types m w =
    let w' = m.others w in
    let (b, j) = claim_job token lock_ms queue types m.now w'.brain in (record w' { brain = b }, j)

-- `type='embed' AND (status='waiting' OR (status='active' AND lock_until IS NOT NULL AND
-- lock_until<?))`.
abbrev pub is_embed_work : ℕ → Job → Bool
is_embed_work now j =
    text_eq j.type (codes "embed")
    && (is_waiting j.status || (is_active j.status && lock_expired now j))

unfoldable pub next_embed_queue : ℕ → World → Option Bytes
next_embed_queue now w = elim (first_job (is_embed_work now) w.brain.jobs) [
  | none ↦ none
  | some j ↦ some j.queue
]

-- `none` is an execution without fuel. A competing worker may win the claim.
unfoldable pub drain_embedding_from :
    Host → (ℕ → Turn) → (rounds n count : ℕ) → World → Option (World × ℕ)
unfolding next_embed_queue claim_in
drain_embedding_from host turns zero n count w = some (w, bounded_count count)
drain_embedding_from host turns (suc rounds) n count w =
    let t = turns n in
    let w0 = t.seek.others w in
    elim (next_embed_queue t.seek.now w0) [
      | none ↦ some (w0, bounded_count count)
      | some queue ↦
          let (w1, claimed) =
            claim_in t.token (pos (lease_seconds * 1000)) queue (codes "embed" ∷ []) t.claim w0 in
          elim claimed [
            | none ↦ drain_embedding_from host turns rounds (suc n) count w1
            | some j ↦ elim (execute_embedding_job host t.cfg j t.at t.fuel w1) [
              | none ↦ none
              | some (w2, written) ↦
                  drain_embedding_from host turns rounds (suc n) (count + written) w2
            ]
          ]
    ]

unfoldable pub drain_embedding_jobs : Host → (ℕ → Turn) → ℕ → World → Option (World × ℕ)
unfolding drain_embedding_from
drain_embedding_jobs host turns max_jobs w = drain_embedding_from host turns max_jobs 0 0 w

-- `j.value(key, fallback)`, which throws at a value that is no text.
abbrev pub value_or : Members → Bytes → Bytes → Option Bytes
value_or ms key fallback = elim (find_member key ms) [
  | none ↦ some fallback
  | some (string s) ↦ some s
  | some _ ↦ none
]

-- The slug and the source of a payload.
abbrev pub facts_request : Option Value → Option (Bytes × Bytes)
facts_request (some (object ms)) = elim (value_or ms (codes "slug") []) [
  | none ↦ none
  | some slug ↦ elim (value_or ms (codes "source_id") (codes "default")) [
    | none ↦ none
    | some source_id ↦ some (slug, source_id)
  ]
]
facts_request _ = none

-- The result of a handler, or its error.
pub data Handled : Type 0 where
  handled : Bytes → Handled
  refused : Bytes → Handled

unfoldable pub handle_extract_facts : Services → World → Job → Handled
handle_extract_facts s w job = elim (facts_request (s.host.parse job.payload_json)) [
  | none ↦ refused (codes "bad payload")
  | some (slug, source_id) ↦
      if is_empty slug
      then refused (codes "slug required")
      else handled (s.facts_text (s.extract_facts w slug source_id) slug)
]

abbrev or_text : Bytes → Bytes → Bytes
or_text text fallback = if is_empty text then fallback else text

-- The job is completed or failed with what its handler says. `none` is an exception.
unfoldable pub finish_job : Services → Turn → Job → Handled → World → World × Option Bool
finish_job s t job (handled result) w =
    let w' = t.finish.others w in
    let (b, _) = complete_job job.id t.token (or_text result (codes "{}")) t.finish.now w'.brain in
    (record w' { brain = b }, some true)
finish_job s t job (refused err) w =
    let w' = t.finish.others w in
    elim (fail_job s.json job.id t.token (or_text err (codes "failed")) t.finish.now w'.brain) [
      | none ↦ (w', none)
      | some (b, _) ↦ (record w' { brain = b }, some true)
    ]

abbrev pub worker_types : List Bytes
worker_types = codes "embed" ∷ codes "extract_facts" ∷ []

-- `process_one` after its claim.
unfoldable pub process_claimed : Services → Turn → World × Option Job → Option (World × Option Bool)
unfolding handle_extract_facts finish_job
process_claimed s t (w, none) = some (w, some false)
process_claimed s t (w, some j) =
    if text_eq j.type (codes "embed")
    then elim (execute_embedding_job s.host t.cfg j t.at t.fuel w) [
      | none ↦ none
      | some (w', _) ↦ some (w', some true)
    ]
    else if text_eq j.type (codes "extract_facts")
    then some (finish_job s t j (handle_extract_facts s w j) w)
    else some (finish_job s t j (refused (codes "unknown job type")) w)

-- Was a job processed? The outer `none` is an execution without fuel, the inner one an exception.
unfoldable pub process_one : Services → Turn → World → Option (World × Option Bool)
unfolding claim_in process_claimed
process_one s t w =
    process_claimed s t (claim_in t.token (pos 60000) (codes "default") worker_types t.claim w)

-- The number of processed jobs; an exception leaves the loop.
unfoldable pub drain_jobs :
    Services → (ℕ → Turn) → (rounds n : ℕ) → World → Option (World × Option ℕ)
unfolding process_one
drain_jobs s turns zero n w = some (w, some n)
drain_jobs s turns (suc rounds) n w = elim (process_one s (turns n) w) [
  | none ↦ none
  | some (w', none) ↦ some (w', none)
  | some (w', some false) ↦ some (w', some n)
  | some (w', some true) ↦ drain_jobs s turns rounds (suc n) w'
]
