-- ===== src/Jobs/Messages.antt =====
-- The messages of a job: `send_job_message_checked` and `list_job_messages_checked` of minions.cpp,
-- with their short forms, and the counts of `count_jobs`. A SAVEPOINT that is released or rolled
-- back is one change of the brain.
pub mod Sent
use mathlib.Core.List.{reverse}
use qbrain.Prelude.{
  ℕ, suc, ◌+◌, Bool, true, false, Option, none, some, List, [], ◌∷◌, ◌++◌, min, max, Bytes, select,
  take, ◌==◌, if◌then◌else◌, not, text_eq, count,
}
use qbrain.Prelude.Int.{ℤ, pos_part}
use qbrain.Jobs.Table.{
  Status, waiting, active, paused, failed, completed, cancelled, Job, JobMessage, Brain, select_id,
  status_text,
}
use qbrain.Jobs.Text.{Json, is_valid_message_sender, canonical_message_payload}
use qbrain.Jobs.Queue.{
  JobOperationStatus, success, invalid_argument, not_found, JobInputField, none_field, job_id_field,
  sender_field, payload_json_field,
}

abbrev pub job_message_max_limit : ℕ
job_message_max_limit = 200

pub record SendJobMessageResult : Type 0 where
  pub status : JobOperationStatus
  pub field : JobInputField
  pub message_id : ℕ

-- The guarded INSERT … SELECT: nothing without the job's row.
unfoldable pub insert_message : ℕ → Bytes → Bytes → ℕ → Brain → Option (Brain × ℕ)
insert_message job_id sender payload now b = elim (select_id job_id b) [
  | none ↦ none
  | some j ↦
      let id = suc b.last_message in
      let row : JobMessage = record {
        id = id;
        job_id = job_id;
        sender = sender;
        payload_json = payload;
        created_at = now;
      } in
      some (record b { messages = b.messages ++ row ∷ []; last_message = id }, id)
]

unfoldable pub send_job_message_checked :
    Json → ℕ → Bytes → Bytes → ℕ → Brain → Brain × SendJobMessageResult
send_job_message_checked json job_id sender payload now b =
    let reply = λ (s : JobOperationStatus) (f : JobInputField) (id : ℕ).
      let r : SendJobMessageResult = record { status = s; field = f; message_id = id } in r in
    if job_id == 0
    then (b, reply invalid_argument job_id_field 0)
    else if not (is_valid_message_sender sender)
    then (b, reply invalid_argument sender_field 0)
    else elim (canonical_message_payload json payload) [
      | none ↦ (b, reply invalid_argument payload_json_field 0)
      | some canonical ↦ elim (select_id job_id b) [
        | none ↦ (b, reply not_found none_field 0)
        | some j ↦ elim (insert_message job_id sender canonical now b) [
          | none ↦ (b, reply not_found none_field 0)
          | some (b', id) ↦ (b', reply success none_field id)
        ]
      ]
    ]

abbrev pub is_success : JobOperationStatus → Bool
is_success success = true
is_success _ = false

unfoldable pub send_job_message : Json → ℕ → Bytes → Bytes → ℕ → Brain → Brain × ℕ
send_job_message json job_id sender payload now b =
    let (b', r) = send_job_message_checked json job_id sender payload now b in
    (b', if is_success r.status then r.message_id else 0)

pub record ListJobMessagesResult : Type 0 where
  pub status : JobOperationStatus
  pub field : JobInputField
  pub messages : List JobMessage

-- `std::clamp(limit, 1, kJobMessageMaxLimit)`; a negative limit has no positive part.
abbrev pub effective_limit : ℤ → ℕ
effective_limit limit = min (max (pos_part limit) 1) job_message_max_limit

-- ORDER BY id DESC: the rows stand by ascending id.
unfoldable pub list_job_messages_checked : ℕ → ℤ → Brain → ListJobMessagesResult
list_job_messages_checked job_id limit b =
    if job_id == 0
    then record { status = invalid_argument; field = job_id_field; messages = [] }
    else elim (select_id job_id b) [
      | none ↦ record { status = not_found; field = none_field; messages = [] }
      | some j ↦ record {
        status = success;
        field = none_field;
        messages =
            take (effective_limit limit)
              (reverse (select (λ (m : JobMessage). m.job_id == job_id) b.messages));
      }
    ]

unfoldable pub list_job_messages : ℕ → ℤ → Brain → List JobMessage
list_job_messages job_id limit b =
    let r = list_job_messages_checked job_id limit b in
    if is_success r.status then r.messages else []

pub record JobCounts : Type 0 where
  pub waiting_jobs : ℕ
  pub active_jobs : ℕ
  pub failed_jobs : ℕ
  pub paused_jobs : ℕ
  pub completed_jobs : ℕ
  pub cancelled_jobs : ℕ

-- The groups of `dead` and `waiting_children` jobs are counted nowhere.
unfoldable pub count_jobs : Brain → JobCounts
count_jobs b =
    let group =
      λ (s : Status). count (λ (j : Job). text_eq (status_text j.status) (status_text s)) b.jobs in
    record {
      waiting_jobs = group waiting;
      active_jobs = group active;
      failed_jobs = group failed;
      paused_jobs = group paused;
      completed_jobs = group completed;
      cancelled_jobs = group cancelled;
    }
