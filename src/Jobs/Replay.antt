-- ===== src/Jobs/Replay.antt =====
-- The replay of a job, the list of jobs and the progress of one, of minions.cpp.
use mathlib.Core.List.{reverse}
use qbrain.Prelude.{
  ℕ, ◌||◌, Option, none, some, List, [], Bytes, text_eq, is_empty, select, take, ◌==◌,
  if◌then◌else◌,
}
use qbrain.Prelude.Int.{ℤ, pos, negsuc}
use qbrain.Jobs.Table.{Status, Job, Brain, failed_or_completed, status_text, insert, select_id}
use qbrain.Jobs.Text.{safe_progress_error}
use qbrain.Jobs.Queue.{
  JobOperationStatus, JobInputField, success, invalid_argument, not_found, invalid_state, new_row,
  none_field, job_id_field,
}

pub record ReplayJobResult : Type 0 where
  pub status : JobOperationStatus
  pub field : JobInputField
  pub original_id : ℕ
  pub new_id : ℕ

-- The guarded INSERT … SELECT of a replay: a fresh row with the source's queue, type, payload and
-- priority.
unfoldable pub insert_replay : ℕ → ℕ → Brain → Option (Brain × ℕ)
insert_replay id now b = elim (select_id id b) [
  | none ↦ none
  | some j ↦
      if failed_or_completed j.status
      then some (insert (new_row j.queue j.type j.payload_json j.priority now) b)
      else none
]

unfoldable pub replay_job_checked : ℕ → ℕ → Brain → Brain × ReplayJobResult
replay_job_checked id now b =
    let reply = λ (s : JobOperationStatus) (f : JobInputField) (new_id : ℕ).
      let r : ReplayJobResult = record {
        status = s;
        field = f;
        original_id = id;
        new_id = new_id;
      } in
      r in
    if id == 0 then (b, reply invalid_argument job_id_field 0) else elim (select_id id b) [
      | none ↦ (b, reply not_found none_field 0)
      | some j ↦
          if failed_or_completed j.status
          then elim (insert_replay id now b) [
            | none ↦ (b, reply invalid_state none_field 0)
            | some (b', new_id) ↦ (b', reply success none_field new_id)
          ]
          else (b, reply invalid_state none_field 0)
    ]

-- LIMIT with an `int`: a negative limit is none.
abbrev pub limit_rows {ℓ} : {A : Type ℓ} → ℤ → List A → List A
limit_rows (pos n) rows = take n rows
limit_rows (negsuc n) rows = rows

-- The newest first; an empty status selects all rows.
unfoldable pub list_jobs : Bytes → ℤ → Brain → List Job
list_jobs status limit b =
    limit_rows limit
      (reverse (select (λ j. is_empty status || text_eq (status_text j.status) status) b.jobs))

pub record JobProgress : Type 0 where
  pub id : ℕ
  pub type : Bytes
  pub status : Status
  pub attempts : ℕ
  pub lock_until : Option ℕ
  pub error_text : Bytes

abbrev pub text_or_empty : Option Bytes → Bytes
text_or_empty none = []
text_or_empty (some t) = t

unfoldable pub get_job_progress : ℕ → Brain → Option JobProgress
get_job_progress id b = if id == 0 then none else elim (select_id id b) [
  | none ↦ none
  | some j ↦ some (record {
    id = j.id;
    type = j.type;
    status = j.status;
    attempts = j.attempts;
    lock_until = j.lock_until;
    error_text = safe_progress_error (text_or_empty j.error_text);
  })
]
