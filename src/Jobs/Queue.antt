-- ===== src/Jobs/Queue.antt =====
-- The operations on single jobs of minions.cpp. Each takes the brain that it changes and the time
-- at which it runs, and returns the brain after it with its result.
use qbrain.Prelude.{
  ℕ, ◌+◌, ◌/◌, Bool, true, false, ◌&&◌, ◌||◌, Option, none, some, List, [], ◌∷◌, max, Bytes, codes,
  text_eq, text_mem, is_empty, ◌==◌, ltb, if◌then◌else◌,
}
use qbrain.Prelude.Int.{ℤ, pos, negsuc, leb_ℤ}
use qbrain.Jobs.Table.{
  Status, waiting, active, paused, completed, failed, cancelled, Job, Brain, is_waiting, is_active,
  is_paused, waiting_or_active, is_retryable, holds, update, insert, select_id,
}
use qbrain.Jobs.Text.{Json, bounded_utf8}

pub data JobOperationStatus : Type 0 where
  success invalid_argument not_found invalid_state : JobOperationStatus

-- The fields that a rejection names.
pub data JobInputField : Type 0 where
  none_field job_id_field sender_field payload_json_field : JobInputField

-- A row as an INSERT makes it: the columns that it does not name have their defaults.
abbrev pub new_row : Bytes → Bytes → Bytes → ℤ → ℕ → ℕ → Job
new_row queue type payload_json priority now id = record {
  id = id;
  queue = queue;
  type = type;
  status = waiting;
  payload_json = payload_json;
  result_json = none;
  error_text = none;
  priority = priority;
  attempts = 0;
  lock_token = none;
  lock_until = none;
  created_at = now;
  updated_at = now;
  parent_id = none;
  depth = 0;
}

-- The texts "{}" and "default".
abbrev pub or_empty_object : Bytes → Bytes
or_empty_object payload = if is_empty payload then codes "{}" else payload

unfoldable pub submit_job : Bytes → Bytes → Bytes → ℤ → ℕ → Brain → Brain × ℕ
submit_job type payload queue priority now =
    insert (new_row queue type (or_empty_object payload) priority now)

-- Is the lock of the row over at a time?
abbrev pub lock_expired : ℕ → Job → Bool
lock_expired now j = elim j.lock_until [ none ↦ false | some until ↦ ltb until now ]

unfoldable pub reclaim_stalled : Bytes → ℕ → Brain → Brain × ℕ
reclaim_stalled queue now =
    update (λ j. text_eq j.queue queue && is_active j.status && lock_expired now j)
      (λ j. record j {
        status = waiting;
        lock_token = none;
        lock_until = none;
        attempts = j.attempts + 1;
        updated_at = now;
      })

-- ORDER BY priority ASC, id ASC.
abbrev pub before : Job → Job → Bool
before j k =
    if leb_ℤ j.priority k.priority
    then (if leb_ℤ k.priority j.priority then ltb j.id k.id else true)
    else false

-- SELECT … WHERE … ORDER BY priority ASC, id ASC LIMIT 1.
unfoldable pub first_job : (Job → Bool) → List Job → Option Job
first_job selects [] = none
first_job selects (j ∷ js) =
    let rest = first_job selects js in
    if selects j
    then elim rest [ none ↦ some j | some k ↦ if before k j then some k else some j ]
    else rest

-- The rows that a worker may claim. No types mean any type.
abbrev pub is_claimable : Bytes → List Bytes → Job → Bool
is_claimable queue types j =
    text_eq j.queue queue && is_waiting j.status && (is_empty types || text_mem j.type types)

-- `max(1, lock_ms / 1000)`; the quotient of a negative number is not above 0.
abbrev pub lock_seconds : ℤ → ℕ
lock_seconds (pos ms) = max 1 (ms / 1000)
lock_seconds (negsuc ms) = 1

-- The conditional write of `claim_job`, after its SELECT has released its lock.
unfoldable pub claim_write : ℕ → Bytes → ℤ → ℕ → Brain → Brain × ℕ
claim_write id token lock_ms now =
    update (λ j. j.id == id && is_waiting j.status)
      (λ j. record j {
        status = active;
        lock_token = some token;
        lock_until = some (now + lock_seconds lock_ms);
        attempts = j.attempts + 1;
        updated_at = now;
        error_text = none;
      })

unfoldable pub get_job : ℕ → Brain → Option Job
get_job id b = select_id id b

-- The row is handed out only if it shows the worker's own token.
abbrev pub own_claim : Bytes → Option Job → Option Job
own_claim token none = none
own_claim token (some j) = if is_active j.status && holds token j then some j else none

unfoldable pub claim_selected : Option Job → Bytes → ℤ → ℕ → Brain → Brain × Option Job
claim_selected none token lock_ms now b = (b, none)
claim_selected (some j) token lock_ms now b =
    let (b', changes) = claim_write j.id token lock_ms now b in
    (b', if changes == 0 then none else own_claim token (get_job j.id b'))

unfoldable pub claim_job : Bytes → ℤ → Bytes → List Bytes → ℕ → Brain → Brain × Option Job
claim_job token lock_ms queue types now b =
    if is_empty token
    then (b, none)
    else let (b', reclaimed) = reclaim_stalled queue now b in
      claim_selected (first_job (is_claimable queue types) b'.jobs) token lock_ms now b'

-- `db.changes() > 0` after an UPDATE.
abbrev pub changed : Brain × ℕ → Brain × Bool
changed (b, changes) = (b, ltb 0 changes)

-- The WHERE that fences a claim: `id=? AND status='active' AND lock_token=?`.
abbrev pub is_fenced : ℕ → Bytes → Job → Bool
is_fenced id token j = j.id == id && (is_active j.status && holds token j)

unfoldable pub complete_job : ℕ → Bytes → Bytes → ℕ → Brain → Brain × Bool
complete_job id token result now b =
    if is_empty token
    then (b, false)
    else changed (
        update (is_fenced id token)
          (λ j. record j {
            status = completed;
            result_json = some result;
            lock_token = none;
            lock_until = none;
            updated_at = now;
            error_text = none;
          })
          b)

-- `none` is an exception of the JSON library, which leaves the function before its UPDATE runs.
unfoldable pub fail_job : Json → ℕ → Bytes → Bytes → ℕ → Brain → Option (Brain × Bool)
fail_job json id token error now b =
    if is_empty token then some (b, false) else elim (json.error_object error) [
      | none ↦ none
      | some object ↦ some (
          changed (
            update (is_fenced id token)
              (λ j. record j {
                status = failed;
                error_text = some (bounded_utf8 error);
                result_json = some object;
                lock_token = none;
                lock_until = none;
                updated_at = now;
              })
              b))
    ]

-- What cancelling, pausing, resuming and requeueing write: a status, and no lock.
abbrev pub unlocked : Status → ℕ → Job → Job
unlocked status now j = record j {
  status = status;
  lock_token = none;
  lock_until = none;
  updated_at = now;
}

unfoldable pub cancel_job : ℕ → ℕ → Brain → Brain × Bool
cancel_job id now b =
    changed (update (λ j. j.id == id && waiting_or_active j.status) (unlocked cancelled now) b)

unfoldable pub retry_job : ℕ → ℕ → Brain → Brain × Bool
retry_job id now b = changed (
    update (λ j. j.id == id && is_retryable j.status)
      (λ j. record (unlocked waiting now j) { error_text = none }) b)

unfoldable pub pause_job : ℕ → ℕ → Brain → Brain × Bool
pause_job id now b =
    if id == 0
    then (b, false)
    else changed (update (λ j. j.id == id && waiting_or_active j.status) (unlocked paused now) b)

unfoldable pub resume_job : ℕ → ℕ → Brain → Brain × Bool
resume_job id now b =
    if id == 0
    then (b, false)
    else changed (update (λ j. j.id == id && is_paused j.status) (unlocked waiting now) b)
