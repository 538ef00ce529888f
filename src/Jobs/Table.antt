-- ===== src/Jobs/Table.antt =====
-- The tables of the job queue (include/qbrain/storage/schema_sql.hpp) and the statements that
-- minions.cpp runs on them. A table is the list of its rows by ascending id, and a statement means
-- what SQL says: an UPDATE rewrites the rows that its WHERE selects and reports their number.
-- An id is a natural number, and 0 stands for every id that is not positive; no row has it.
-- A time is a count of seconds, which the texts of `utc_now` order as the program compares them.
use qbrain.Prelude.{
  ℕ, suc, Bool, true, false, Option, none, some, List, [], ◌∷◌, ◌++◌, Bytes, codes, text_eq, count,
  find?, ◌==◌, if◌then◌else◌,
}
use qbrain.Prelude.Int.{ℤ}

-- The values of the column `status`.
pub data Status : Type 0 where
  waiting active paused completed failed cancelled dead waiting_children : Status

-- A row of `jobs`; a column that may be NULL is an `Option`.
pub record Job : Type 0 where
  pub id : ℕ
  pub queue : Bytes
  pub type : Bytes
  pub status : Status
  pub payload_json : Bytes
  pub result_json : Option Bytes
  pub error_text : Option Bytes
  pub priority : ℤ
  pub attempts : ℕ
  pub lock_token : Option Bytes
  pub lock_until : Option ℕ
  pub created_at : ℕ
  pub updated_at : ℕ
  pub parent_id : Option ℕ
  pub depth : ℕ

-- A row of `job_messages`.
pub record JobMessage : Type 0 where
  pub id : ℕ
  pub job_id : ℕ
  pub sender : Bytes
  pub payload_json : Bytes
  pub created_at : ℕ

-- `last_job` and `last_message` are the AUTOINCREMENT counters, `fences` the rows of
-- `job_aggregation_fence`.
pub record Brain : Type 0 where
  pub jobs : List Job
  pub last_job : ℕ
  pub messages : List JobMessage
  pub last_message : ℕ
  pub fences : List ℕ

abbrev pub empty_brain : Brain
empty_brain = record { jobs = []; last_job = 0; messages = []; last_message = 0; fences = [] }

-- The tests `status='…'` and `status IN (…)` of the statements.
abbrev pub is_waiting : Status → Bool
is_waiting waiting = true
is_waiting _ = false

abbrev pub is_active : Status → Bool
is_active active = true
is_active _ = false

abbrev pub is_paused : Status → Bool
is_paused paused = true
is_paused _ = false

abbrev pub is_completed : Status → Bool
is_completed completed = true
is_completed _ = false

abbrev pub is_failed : Status → Bool
is_failed failed = true
is_failed _ = false

abbrev pub is_waiting_children : Status → Bool
is_waiting_children waiting_children = true
is_waiting_children _ = false

abbrev pub waiting_or_active : Status → Bool
waiting_or_active waiting = true
waiting_or_active active = true
waiting_or_active _ = false

abbrev pub failed_or_completed : Status → Bool
failed_or_completed failed = true
failed_or_completed completed = true
failed_or_completed _ = false

abbrev pub is_retryable : Status → Bool
is_retryable failed = true
is_retryable cancelled = true
is_retryable dead = true
is_retryable _ = false

abbrev pub is_cancellable_parent : Status → Bool
is_cancellable_parent waiting = true
is_cancellable_parent active = true
is_cancellable_parent waiting_children = true
is_cancellable_parent _ = false

-- `n34a::is_terminal`.
abbrev pub is_terminal : Status → Bool
is_terminal completed = true
is_terminal failed = true
is_terminal cancelled = true
is_terminal dead = true
is_terminal _ = false

unfoldable pub status_text : Status → Bytes
status_text waiting = codes "waiting"
status_text active = codes "active"
status_text paused = codes "paused"
status_text completed = codes "completed"
status_text failed = codes "failed"
status_text cancelled = codes "cancelled"
status_text dead = codes "dead"
status_text waiting_children = codes "waiting_children"

-- `parent_id=?`, which NULL does not pass.
abbrev pub has_parent : ℕ → Job → Bool
has_parent p j = elim j.parent_id [ none ↦ false | some q ↦ q == p ]

-- `lock_token=?`, which NULL does not pass.
abbrev pub holds : Bytes → Job → Bool
holds token j = elim j.lock_token [ none ↦ false | some t ↦ text_eq t token ]

-- UPDATE jobs SET … WHERE …: the rows after, and the number of rows that were selected.
unfoldable pub rewrite : (Job → Bool) → (Job → Job) → List Job → List Job
rewrite selects set [] = []
rewrite selects set (j ∷ js) = (if selects j then set j else j) ∷ rewrite selects set js

unfoldable pub update : (Job → Bool) → (Job → Job) → Brain → Brain × ℕ
update selects set b = (record b { jobs = rewrite selects set b.jobs }, count selects b.jobs)

-- INSERT INTO jobs: the new row takes the next id.
unfoldable pub insert : (ℕ → Job) → Brain → Brain × ℕ
insert row b =
    let id = suc b.last_job in (record b { jobs = b.jobs ++ row id ∷ []; last_job = id }, id)

-- SELECT … WHERE id=?.
unfoldable pub select_id : ℕ → Brain → Option Job
select_id id b = find? (λ j. j.id == id) b.jobs
