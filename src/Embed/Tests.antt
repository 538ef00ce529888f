-- ===== src/Embed/Tests.antt =====
-- A page with two chunks, of which one has an embedding, and the job that embeds the other.
use qbrain.Prelude.{
  ℕ, ◌+◌, ◌*◌, ◌≤◌, ◌≡◌, refl, true, false, none, some, List, [], ◌∷◌, map, Bytes, codes, length,
  length-map, arith, text_eq,
}
use qbrain.Prelude.{◌⊎◌, inl, inr}
use qbrain.Prelude.Int.{pos}
use qbrain.Embed.Execute.{bounded_count}
use qbrain.Jobs.Table.{
  Job, Brain, active, completed, update, rewrite, select_id, empty_brain, insert,
}
use qbrain.Jobs.Queue.{
  submit_job, claim_job, claim_selected, first_job, reclaim_stalled, claim_write, get_job,
}
use qbrain.Prelude.{text_mem}
use qbrain.Jobs.Preserved.{submit_job-IsBrain}
use qbrain.Jobs.Invariant.{empty_brain-IsBrain}
use qbrain.Accounting.Input.{integer_number, object, done, member, field}
use qbrain.Embed.Tables.{World, Page, Chunk, Config, returns}
use qbrain.Utf8.{valid_utf8, utf8_scalar_size}
use qbrain.Jobs.Invariant.{IsBrain}
use qbrain.Embed.Drain.{claim_in, worker_types}
use qbrain.Embed.Batch.{
  EmbedResult, check_vectors, validate_result, active_embedding_model, json_text_bytes, pack_f32,
}
use qbrain.Embed.Execute.{Host, Moment, read_payload, execute_embedding_job}
use qbrain.Embed.Requests.{Fits}
use qbrain.Embed.Steps.{Trace}
use qbrain.Embed.Traces.{execute_embedding_job-Trace}
use qbrain.Embed.Rounds.{execute_embedding_job_ends}
use qbrain.Embed.Ready.{IsDone}
use qbrain.Embed.Completes.{execute_embedding_job_completes}
use qbrain.Embed.Calm.{Answers}
use qbrain.Embed.Drain.{Services, Turn, process_one}
use qbrain.Embed.Worked.{process_one_completes}

-- The vector (1.0, 0.0).
abbrev vector : List ℕ
vector = 0x3f800000 ∷ 0 ∷ []

abbrev cfg : Config
cfg = record { embedding_model = codes "m"; embedding_dimensions = pos 2; mock = false }

abbrev answer : List Bytes → EmbedResult
answer texts = record { good = true; vectors = map (λ _. vector) texts; model = codes "m" }

abbrev host : Host
host = record {
  parse = λ _. some (object (member (codes "page_id") (integer_number (pos 1)) done));
  envelope_bytes = λ _. 60;
  progress_text = λ chunks batches outcome error. codes outcome;
  embed_texts = λ k c texts. some (answer texts);
}

abbrev at : ℕ → Moment
at k = record { now = 20 + k; others = λ w. w }

abbrev page_row : Page
page_row = record {
  id = 1;
  source_id = codes "default";
  slug = codes "p";
  content_hash = none;
  updated_at = codes "t";
  deleted = false;
}

abbrev old_chunk : Chunk
old_chunk = record {
  id = 3;
  page_id = 1;
  chunk_index = 0;
  text = codes "a";
  embedding = some (1 ∷ []);
  dim = some 1;
  model = none;
}

abbrev new_chunk : Chunk
new_chunk = record {
  id = 4;
  page_id = 1;
  chunk_index = 1;
  text = codes "b";
  embedding = none;
  dim = none;
  model = none;
}

abbrev start : Brain
start = (submit_job (codes "embed") (codes "{}") (codes "default") (pos 5) 10 empty_brain).0

abbrev claimed : Job
claimed = record {
  id = 1;
  queue = codes "default";
  type = codes "embed";
  status = active;
  payload_json = codes "{}";
  result_json = none;
  error_text = none;
  priority = pos 5;
  attempts = 1;
  lock_token = some (codes "t");
  lock_until = some 72;
  created_at = 10;
  updated_at = 12;
  parent_id = none;
  depth = 0;
}

abbrev submitted : World
submitted = record { brain = start; pages = page_row ∷ []; chunks = old_chunk ∷ new_chunk ∷ [] }

abbrev world : World
world = record submitted { brain = record start { jobs = claimed ∷ [] } }

abbrev finished_chunk : Chunk
finished_chunk = record new_chunk {
  embedding = some (0 ∷ 0 ∷ 0x80 ∷ 0x3f ∷ 0 ∷ 0 ∷ 0 ∷ 0 ∷ []);
  dim = some 2;
  model = some (codes "m");
}

abbrev finished_world : World
finished_world = record world {
  brain = record world.brain {
    jobs =
        record claimed {
          status = completed;
          result_json = some (codes "completed");
          lock_token = none;
          lock_until = none;
          updated_at = 22;
        }
        ∷ [];
  };
  chunks = old_chunk ∷ finished_chunk ∷ [];
}

execute_test : execute_embedding_job host cfg claimed at 2 world ≡ some (finished_world, 1)
unfolding execute_embedding_job submit_job text_eq field update valid_utf8 utf8_scalar_size rewrite
    pack_f32
execute_test = refl

execute_embedding_job-Trace_example : Trace claimed 1 at 0 world finished_world
unfolding read_payload field text_eq
execute_embedding_job-Trace_example =
    execute_embedding_job-Trace host cfg claimed at 2 world execute_test

check_answer :
    (total width : ℕ) (texts : List Bytes)
    → (width ≡ 0) ⊎ (width ≡ 2)
    → total + 2 * length texts ≤ 1024 * 1024
    → check_vectors cfg total width (map (λ _. vector) texts) ≡ returns tt
unfolding check_vectors
check_answer total width [] h le = refl
check_answer total width (t ∷ ts) h le =
    let rest = check_answer (total + 2) 2 ts (inr refl) (omega arith) in ground arith

answers : Answers host cfg
unfolding validate_result text_eq active_embedding_model
answers k texts some_text few = (
  answer texts,
  refl,
  let many = length-map (λ (_ : Bytes). vector) texts in
      let checked = check_answer 0 0 texts (inl refl) (omega arith) in ground arith,
)

world-IsBrain : IsBrain world.brain
unfolding submit_job insert
world-IsBrain = record { ordered = omega arith; locked = (refl, tt); placed = (refl, tt) }

execute_embedding_job_ends_example :
    (r : World × ℕ) × (execute_embedding_job host cfg claimed at 5 world ≡ some r)
unfolding read_payload field text_eq
execute_embedding_job_ends_example =
    execute_embedding_job_ends host cfg claimed at 5 world (omega arith)

new_chunk-Fits : Fits 60 new_chunk
unfolding json_text_bytes valid_utf8 utf8_scalar_size
new_chunk-Fits = record { short = refl; size = 3; sized = refl; room = refl }

execute_embedding_job_completes_example :
    (w' : World) × (execute_embedding_job host cfg claimed at 2 world ≡ some (w', 1))
    × IsDone claimed 1 w'
unfolding read_payload field text_eq bounded_count select_id submit_job
execute_embedding_job_completes_example =
    execute_embedding_job_completes host cfg claimed at 2 world 1 page_row claimed refl
      (λ k v. refl) (λ k. omega arith) answers world-IsBrain refl refl refl (omega arith)
      (new_chunk-Fits, tt) (omega arith)

abbrev services : Services
services = record {
  host = host;
  json = record {
    canonical = λ t. some t;
    error_object = λ t. some t;
    aggregate_object = λ _ _. [];
  };
  facts_text = λ n slug. slug;
  extract_facts = λ w slug source_id. 0;
}

abbrev turn : Turn
turn = record {
  seek = record { now = 12; others = λ w. w };
  claim = record { now = 12; others = λ w. w };
  finish = record { now = 30; others = λ w. w };
  token = codes "t";
  cfg = cfg;
  at = at;
  fuel = 2;
}

claim_test :
    claim_in (codes "t") (pos 60000) (codes "default") worker_types turn.claim submitted
    ≡ (world, some claimed)
unfolding claim_in claim_job submit_job insert text_eq update rewrite claim_selected first_job
    reclaim_stalled text_mem claim_write get_job select_id
claim_test = refl

start-IsBrain : IsBrain start
start-IsBrain =
    submit_job-IsBrain (codes "embed") (codes "{}") (codes "default") (pos 5) 10 empty_brain
      empty_brain-IsBrain

process_one_completes_example :
    (w' : World) × (process_one services turn submitted ≡ some (w', some true))
    × IsDone claimed 1 w'
unfolding read_payload field text_eq
process_one_completes_example =
    process_one_completes services turn submitted world claimed 1 page_row start-IsBrain refl
      claim_test refl (omega arith) refl (λ k v. refl) (λ k. omega arith) answers refl (omega arith)
      (new_chunk-Fits, tt) (omega arith)
