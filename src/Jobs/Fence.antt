-- ===== src/Jobs/Fence.antt =====
-- What the operations on one job write, and when: the token fence and the control operations.
use qbrain.Prelude.{
  ℕ, ◌≡◌, refl, sym, ap, ◌∙◌, Bool, true, false, ◌&&◌, none, some, List, ◌==◌, if◌then◌else◌,
  is_empty, Bytes, arith, Bool-cases, inl, inr,
}
use qbrain.Jobs.Table.{
  waiting, paused, completed, failed, cancelled, Job, Brain, select_id, is_active, is_paused,
  waiting_or_active, is_retryable, holds,
}
use qbrain.Jobs.Text.{Json, bounded_utf8}
use qbrain.Jobs.Queue.{
  complete_job, fail_job, cancel_job, retry_job, pause_job, resume_job, unlocked,
}
use qbrain.Jobs.Invariant.{IsBrain}
use qbrain.Jobs.Completed.{run_keeps_completed}
use qbrain.Jobs.History.{run_keeps-IsBrain}
use qbrain.Jobs.ById.{UpdatesOne, update-UpdatesOne}
use qbrain.Jobs.Preserved.{complete_job-IsBrain}
use qbrain.Jobs.Calls.{Call, run}

-- The fence: the row is active under this very token.
abbrev pub owned : Bytes → Job → Bool
owned token j = is_active j.status && holds token j

abbrev pub completed_row : Bytes → ℕ → Job → Job
completed_row result now j = record (unlocked completed now j) {
  result_json = some result;
  error_text = none;
}

abbrev pub failed_row : Bytes → Bytes → ℕ → Job → Job
failed_row error object now j = record (unlocked failed now j) {
  result_json = some object;
  error_text = some (bounded_utf8 error);
}

-- Completing a job of a well-formed table succeeds exactly when the job is active under the token
-- given, which is not empty; then its row, and no other, becomes completed with the result and
-- without lock or error.
pub complete_job-UpdatesOne :
    (id : ℕ) (token result : Bytes) (now : ℕ) (b : Brain) (j : Job)
    → IsBrain b
    → select_id id b ≡ some j
    → is_empty token ≡ false
    → UpdatesOne
        (owned token)
        (completed_row result now)
        id
        j
        b
        (complete_job id token result now b)
unfolding complete_job
complete_job-UpdatesOne id token result now b j v e full =
    rw full (update-UpdatesOne (owned token) (completed_row result now) id j b (λ _. refl) v e)

-- Failing a job of a well-formed table, with an error that the JSON library can print, succeeds
-- exactly when the job is active under the token given, which is not empty; then its row, and no
-- other, becomes failed with the bounded error text and the error object and without lock.
pub fail_job-UpdatesOne :
    (json : Json) (id : ℕ) (token error object : Bytes) (now : ℕ) (b : Brain) (j : Job)
    → IsBrain b
    → select_id id b ≡ some j
    → is_empty token ≡ false
    → json.error_object error ≡ some object
    → (r : Brain × Bool) × (fail_job json id token error now b ≡ some r)
      × UpdatesOne (owned token) (failed_row error object now) id j b r
unfolding fail_job
fail_job-UpdatesOne json id token error object now b j v e full dumped =
    rw (full, dumped)
      (
        _,
        refl,
        update-UpdatesOne (owned token) (failed_row error object now) id j b (λ _. refl) v e,
      )

abbrev pub retried_row : ℕ → Job → Job
retried_row now j = record (unlocked waiting now j) { error_text = none }

-- The four control operations on a job of a well-formed table, with an id that is not 0: each
-- reports success exactly when the job's status is one that it starts from, then writes the new
-- status without a lock (and a retry clears the error), and writes no other row.
pub control-UpdatesOne :
    (id now : ℕ) (b : Brain) (j : Job)
    → IsBrain b
    → select_id id b ≡ some j
    → (id == 0) ≡ false
    → UpdatesOne
        (λ k. waiting_or_active k.status)
        (unlocked cancelled now)
        id
        j
        b
        (cancel_job id now b)
      × UpdatesOne
          (λ k. waiting_or_active k.status)
          (unlocked paused now)
          id
          j
          b
          (pause_job id now b)
      × UpdatesOne (λ k. is_paused k.status) (unlocked waiting now) id j b (resume_job id now b)
      × UpdatesOne (λ k. is_retryable k.status) (retried_row now) id j b (retry_job id now b)
unfolding cancel_job pause_job resume_job retry_job
control-UpdatesOne id now b j v e good = (
  update-UpdatesOne (λ k. waiting_or_active k.status) (unlocked cancelled now) id j b (λ _. refl) v
      e,
  rw good (
      update-UpdatesOne (λ k. waiting_or_active k.status) (unlocked paused now) id j b (λ _. refl) v
        e),
  rw good
      (update-UpdatesOne (λ k. is_paused k.status) (unlocked waiting now) id j b (λ _. refl) v e),
  update-UpdatesOne (λ k. is_retryable k.status) (retried_row now) id j b (λ _. refl) v e,
)

completed_of_true :
    (id : ℕ) (token result : Bytes) (now : ℕ) (b : Brain) (j : Job)
    → IsBrain b
    → select_id id b ≡ some j
    → (complete_job id token result now b).1 ≡ true
    → select_id id (complete_job id token result now b).0 ≡ some (completed_row result now j)
completed_of_true id token result now b j v e done = elim (Bool-cases (is_empty token)) [
  | inl bare ↦ absurd (unfold complete_job in ground arith)
  | inr full ↦
      let effect = complete_job-UpdatesOne id token result now b j v e full in
      effect.1 ∙ ap (λ t. some (if t then completed_row result now j else j)) (sym effect.0 ∙ done)
]

complete_job_refused :
    (id : ℕ) (token result : Bytes) (now : ℕ) (b : Brain) (j : Job)
    → IsBrain b
    → select_id id b ≡ some j
    → j.status ≡ completed
    → (complete_job id token result now b).1 ≡ false
complete_job_refused id token result now b j v e final = elim (Bool-cases (is_empty token)) [
  | inl bare ↦ unfold complete_job in rw bare
  | inr full ↦ (complete_job-UpdatesOne id token result now b j v e full).0 ∙ ground arith
]

-- A job is completed at most once: after a completion has succeeded, whatever calls follow, no
-- completion of the job succeeds, under any token.
pub complete_job_once :
    (json : Json) (id : ℕ) (token result token' result' : Bytes) (now now' : ℕ) (b : Brain)
    (j : Job) (cs : List (ℕ × Call))
    → IsBrain b
    → select_id id b ≡ some j
    → (complete_job id token result now b).1 ≡ true
    → (complete_job id token' result' now' (run json cs (complete_job id token result now b).0)).1
      ≡ false
complete_job_once json id token result token' result' now now' b j cs v e done =
    let b' = (complete_job id token result now b).0 in
    let row = completed_row result now j in
    let final = completed_of_true id token result now b j v e done in
    complete_job_refused id token' result' now' (run json cs b') row
      (run_keeps-IsBrain json cs b' (complete_job-IsBrain id token result now b v))
      (run_keeps_completed json cs id row b' refl final) refl
