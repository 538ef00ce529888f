-- ===== src/Jobs/Tests.antt =====
-- Runs of the job queue on a small table, and the theorems on it at concrete calls.
use qbrain.Prelude.{
  if◌then◌else◌, ℕ, ◌≤◌, ◌≡◌, ◌≢◌, ◌⊎◌, ◌&&◌, refl, Bytes, Bool, true, false, none, some, List, [],
  ◌∷◌, codes, length, arith, count, ◌==◌, IsByteText, text_eq,
}
use qbrain.Prelude.Int.{pos}
use qbrain.Utf8.{valid_utf8, utf8_excerpt}
use qbrain.Jobs.Table.{
  Status, waiting, active, paused, completed, failed, cancelled, waiting_children, Job, Brain,
  empty_brain, select_id, update, rewrite, insert, is_paused, is_retryable, waiting_or_active,
  has_parent, status_text,
}
use qbrain.Jobs.Text.{
  Json, is_valid_utf8, bounded_utf8, bounded_from, utf8_sequence_length, safe_progress_error,
  canonical_message_payload, is_valid_from,
}
use qbrain.Jobs.Queue
use qbrain.Jobs.Queue.{
  new_row, submit_job, claim_job, claim_selected, claim_write, first_job, get_job, reclaim_stalled,
  complete_job, fail_job, cancel_job, pause_job, resume_job, retry_job, unlocked,
}
use qbrain.Jobs.Tree.{
  ChildSpec, spawn_children, check_specs, spawn_write, insert_children, count_children,
  aggregate_if_ready, aggregate_write, compute_aggregate_json, count_by_status,
  try_begin_aggregation, brain_at,
}
use qbrain.Jobs.Hierarchy.{cancel_job_tree}
use qbrain.Jobs.Messages.{send_job_message_checked}
use qbrain.Jobs.Messages.Sent.{Sends, send_job_message_checked-Sends}
use qbrain.Jobs.Invariant.{IsBrain}
use qbrain.Jobs.Calls.{Call, run, step}
use qbrain.Jobs.History.{run-IsBrain}
use qbrain.Jobs.Completed.{run_keeps_completed}
use qbrain.Jobs.ById.{UpdatesOne}
use qbrain.Jobs.Fence.{
  owned, completed_row, failed_row, retried_row, complete_job-UpdatesOne, fail_job-UpdatesOne,
  control-UpdatesOne, complete_job_once,
}
use qbrain.Jobs.Claim.{Claims, claimed_row, claim_job-Claims, claim_selected_race}
use qbrain.Jobs.Aggregate.{
  Aggregates, calls_between, aggregate_if_ready-Aggregates, aggregate_if_ready_once,
}
use qbrain.Jobs.Cancel.{NoneRunning, cancel_job_tree-NoneRunning, cancel_job_tree_keeps_paused}
use qbrain.Jobs.Spawn.{Spawns, spawn_children-Spawns}
use qbrain.Jobs.Display.{
  looks_secret, is_valid_utf8-valid_utf8, bounded_utf8-utf8_excerpt, safe_progress_error_safe,
}

-- A JSON library that prints what it is given.
abbrev plain : Json
plain = record {
  canonical = λ t. some t;
  error_object = λ t. some t;
  aggregate_object = λ counts errors. codes "{}";
}

abbrev row : ℕ → Status → Job
row id status = record (new_row (codes "default") (codes "sync") (codes "{}") (pos 5) 0 id) {
  status = status;
}

abbrev child : ℕ → ℕ → Status → Job
child parent id status = record (row id status) { parent_id = some parent; depth = 1 }

abbrev running : Job
running = record (row 1 active) { lock_token = some (codes "w1"); lock_until = some 90 }

-- Job 1 runs under the token "w1"; job 2 waits for children that have ended; job 5 waits for a
-- paused child and a waiting one; jobs 8 and 9 wait.
abbrev sample : Brain
sample = record empty_brain {
  jobs =
      running
      ∷ row 2 waiting_children
      ∷ child 2 3 completed
      ∷ child 2 4 failed
      ∷ row 5 waiting_children
      ∷ child 5 6 paused
      ∷ child 5 7 waiting
      ∷ row 8 waiting
      ∷ row 9 completed
      ∷ [];
  last_job = 9;
}

sample-IsBrain : IsBrain sample
sample-IsBrain = record {
  ordered = omega arith;
  locked = (refl, (refl, (refl, (refl, (refl, (refl, (refl, (refl, (refl, tt)))))))));
  placed = (refl, (refl, (refl, (refl, (refl, (refl, (refl, (refl, (refl, tt)))))))));
}

found :
    (select_id 1 sample ≡ some running)
    × (select_id 5 sample ≡ some (row 5 waiting_children))
    × (select_id 6 sample ≡ some (child 5 6 paused))
    × (select_id 8 sample ≡ some (row 8 waiting))
    × (select_id 9 sample ≡ some (row 9 completed))
unfolding select_id
found = (refl, refl, refl, refl, refl)

abbrev later : List (ℕ × Call)
later =
    (20, Call.retry 1)
    ∷ (21, Call.cancel_tree 9)
    ∷ (22, Call.claim (codes "w2") (pos 1000) (codes "default") [])
    ∷ []

run-IsBrain_example : IsBrain (run plain later empty_brain)
run-IsBrain_example = run-IsBrain plain later

run_keeps_completed_example : select_id 9 (run plain later sample) ≡ some (row 9 completed)
run_keeps_completed_example =
    run_keeps_completed plain later 9 (row 9 completed) sample refl found.4

completes : (complete_job 1 (codes "w1") (codes "{}") 10 sample).1 ≡ true
unfolding complete_job update text_eq
completes = refl

refused : (complete_job 1 (codes "w2") (codes "{}") 10 sample).1 ≡ false
unfolding complete_job update text_eq
refused = refl

complete_job_once_example :
    (complete_job 1
      (codes "w2")
      (codes "[]")
      30
      (run plain later (complete_job 1 (codes "w1") (codes "{}") 10 sample).0)).1
    ≡ false
complete_job_once_example =
    complete_job_once plain 1 (codes "w1") (codes "{}") (codes "w2") (codes "[]") 10 30 sample
      running later sample-IsBrain found.0 completes

claim_job-Claims_example :
    Claims
      (codes "w2")
      (pos 5000)
      (codes "default")
      []
      10
      sample
      (claim_job (codes "w2") (pos 5000) (codes "default") [] 10 sample)
claim_job-Claims_example =
    claim_job-Claims (codes "w2") (pos 5000) (codes "default") [] 10 sample sample-IsBrain refl

claim_selected_race_example :
    let won = claim_selected (some (row 8 waiting)) (codes "w2") (pos 5000) 10 sample in
    (won.1 ≡ some (claimed_row (codes "w2") (pos 5000) 10 (row 8 waiting)))
    × ((claim_selected (some (row 8 waiting)) (codes "w3") (pos 9000) 11 won.0).1 ≡ none)
claim_selected_race_example =
    claim_selected_race (row 8 waiting) (codes "w2") (codes "w3") (pos 5000) (pos 9000) 10 11 sample
      sample-IsBrain found.3 refl refl

-- Another connection retries the failed child 4 after an aggregation has read the groups.
abbrev meddling : ℕ → List (ℕ × Call)
meddling i = if i == 3 then (9, Call.retry 4) ∷ [] else []

aggregates :
    (aggregate_if_ready plain 2 10 (calls_between plain meddling) sample).1.aggregated ≡ true
unfolding aggregate_if_ready select_id count_children compute_aggregate_json count_by_status
    aggregate_write try_begin_aggregation update status_text text_eq run step retry_job rewrite
aggregates = refl

aggregate_if_ready-Aggregates_example :
    Aggregates 2 10
      (brain_at (calls_between plain meddling) 3 sample)
      (brain_at (calls_between plain meddling) 5 sample)
      (aggregate_if_ready plain 2 10 (calls_between plain meddling) sample)
aggregate_if_ready-Aggregates_example =
    aggregate_if_ready-Aggregates plain 2 10 meddling sample sample-IsBrain aggregates

aggregate_if_ready_once_example :
    (aggregate_if_ready plain 2 40
      (λ _ b. b)
      (run plain later
        (aggregate_if_ready plain 2 10 (calls_between plain meddling) sample).0)).1.aggregated
    ≡ false
aggregate_if_ready_once_example =
    aggregate_if_ready_once plain 2 10 40 meddling (λ _ b. b) sample later sample-IsBrain aggregates

abbrev two_specs : List ChildSpec
two_specs =
    record { type = codes "a"; payload_json = []; queue = []; priority = pos 1 }
    ∷ record { type = codes "b"; payload_json = codes "{}"; queue = codes "slow"; priority = pos 2 }
    ∷ []

spawn_children-Spawns_example :
    ((spawn_children plain 8 two_specs 10 sample).1.status ≢ Queue.success)
      × ((spawn_children plain 8 two_specs 10 sample).0 ≡ sample)
      × ((spawn_children plain 8 two_specs 10 sample).1.child_ids ≡ [])
    ⊎ ((spawn_children plain 8 two_specs 10 sample).1.status ≡ Queue.success)
      × Spawns 8 two_specs 10 sample (spawn_children plain 8 two_specs 10 sample)
spawn_children-Spawns_example = spawn_children-Spawns plain 8 two_specs 10 sample sample-IsBrain

spawned : (spawn_children plain 8 two_specs 10 sample).1.child_ids ≡ 10 ∷ 11 ∷ []
unfolding spawn_children check_specs canonical_message_payload is_valid_utf8 is_valid_from
    utf8_sequence_length select_id spawn_write update insert_children insert
spawned = refl

family : (count_children 5 sample == 0) ≡ false
unfolding count_children
family = refl

cancel_job_tree-NoneRunning_example :
    NoneRunning 5 (cancel_job_tree 5 10 sample).0
    × ((cancel_job_tree 5 10 sample).1.cancelled_children
        ≡ count (λ k. has_parent 5 k && waiting_or_active k.status) sample.jobs)
cancel_job_tree-NoneRunning_example =
    cancel_job_tree-NoneRunning 5 10 sample (row 5 waiting_children) refl found.1 family

cancel_job_tree_keeps_paused_example :
    select_id 6 (cancel_job_tree 5 10 sample).0 ≡ some (child 5 6 paused)
cancel_job_tree_keeps_paused_example =
    cancel_job_tree_keeps_paused 5 6 10 sample (child 5 6 paused) found.2 refl

complete_job-UpdatesOne_example :
    UpdatesOne
      (owned (codes "w1"))
      (completed_row (codes "{}") 10)
      1
      running
      sample
      (complete_job 1 (codes "w1") (codes "{}") 10 sample)
complete_job-UpdatesOne_example =
    complete_job-UpdatesOne 1 (codes "w1") (codes "{}") 10 sample running sample-IsBrain found.0
      refl

fail_job-UpdatesOne_example :
    (r : Brain × Bool) × (fail_job plain 1 (codes "w1") (codes "lost") 10 sample ≡ some r)
    × UpdatesOne
        (owned (codes "w1"))
        (failed_row (codes "lost") (codes "lost") 10)
        1
        running
        sample
        r
fail_job-UpdatesOne_example =
    fail_job-UpdatesOne plain 1 (codes "w1") (codes "lost") (codes "lost") 10 sample running
      sample-IsBrain found.0 refl refl

control-UpdatesOne_example :
    UpdatesOne
      (λ k. waiting_or_active k.status)
      (unlocked cancelled 10)
      6
      (child 5 6 paused)
      sample
      (cancel_job 6 10 sample)
    × UpdatesOne
        (λ k. waiting_or_active k.status)
        (unlocked paused 10)
        6
        (child 5 6 paused)
        sample
        (pause_job 6 10 sample)
    × UpdatesOne
        (λ k. is_paused k.status)
        (unlocked waiting 10)
        6
        (child 5 6 paused)
        sample
        (resume_job 6 10 sample)
    × UpdatesOne
        (λ k. is_retryable k.status)
        (retried_row 10)
        6
        (child 5 6 paused)
        sample
        (retry_job 6 10 sample)
control-UpdatesOne_example =
    control-UpdatesOne 6 10 sample (child 5 6 paused) sample-IsBrain found.2 refl

-- A text with a byte that no character begins with, and one with a key.
abbrev broken : Bytes
broken = 0x61 ∷ 0xff ∷ 0x62 ∷ []

broken_bytes : IsByteText broken
broken_bytes = omega arith

validators_agree : is_valid_utf8 broken ≡ valid_utf8 broken
validators_agree = is_valid_utf8-valid_utf8 broken broken_bytes

bounded_utf8-utf8_excerpt_example : bounded_utf8 broken ≡ utf8_excerpt broken 500 false
bounded_utf8-utf8_excerpt_example = bounded_utf8-utf8_excerpt broken broken_bytes

broken_bounded : bounded_utf8 broken ≡ 0x61 ∷ 0xef ∷ 0xbf ∷ 0xbd ∷ 0x62 ∷ []
unfolding bounded_utf8 bounded_from utf8_sequence_length
broken_bounded = refl

safe_progress_error_safe_example :
    (length (safe_progress_error broken) ≤ 500)
    × (valid_utf8 (safe_progress_error broken) ≡ true)
    × (safe_progress_error broken
        ≡ (if looks_secret broken then codes "[redacted]" else utf8_excerpt broken 500 false))
safe_progress_error_safe_example = safe_progress_error_safe broken broken_bytes

send_job_message_checked-Sends_example :
    ((send_job_message_checked plain 1 (codes "op") (codes "{}") 10 sample).1.status
        ≢ Queue.success)
      × ((send_job_message_checked plain 1 (codes "op") (codes "{}") 10 sample).0 ≡ sample)
      × ((send_job_message_checked plain 1 (codes "op") (codes "{}") 10 sample).1.message_id ≡ 0)
    ⊎ ((send_job_message_checked plain 1 (codes "op") (codes "{}") 10 sample).1.status
        ≡ Queue.success)
      × Sends plain 1
          (codes "op")
          (codes "{}")
          sample
          (send_job_message_checked plain 1 (codes "op") (codes "{}") 10 sample)
send_job_message_checked-Sends_example =
    send_job_message_checked-Sends plain 1 (codes "op") (codes "{}") 10 sample
