-- ===== src/Jobs/Tree.antt =====
-- The parent and child operations of minions.cpp (namespace n34a and what follows it). Each BEGIN
-- IMMEDIATE … COMMIT is one change of the brain; a ROLLBACK returns the brain unchanged.
use Prim.Native.String.{String}
use qbrain.Prelude.{
  ℕ, zero, suc, ◌+◌, Bool, true, false, not, ◌&&◌, Option, none, some, List, [], ◌∷◌, map, Bytes,
  is_empty, text_eq, length, count, select, take, any, all, ◌==◌, ltb, if◌then◌else◌,
}
use qbrain.Prelude.Int.{ℤ}
use qbrain.Jobs.Table.{
  Status, waiting, active, paused, completed, failed, cancelled, dead, waiting_children, Job, Brain,
  is_waiting, is_completed, is_failed, is_waiting_children, is_terminal, status_text, has_parent,
  update, insert, select_id,
}
use qbrain.Jobs.Text.{Json, canonical_message_payload, safe_progress_error}
use qbrain.Jobs.Queue.{
  JobOperationStatus, success, invalid_argument, not_found, invalid_state, new_row, unlocked,
  changed, or_empty_object,
}
use qbrain.Jobs.Replay.{text_or_empty}

abbrev pub job_max_child_fanout : ℕ
job_max_child_fanout = 8

abbrev pub job_aggregate_error_max_entries : ℕ
job_aggregate_error_max_entries = 8

pub record ChildSpec : Type 0 where
  pub type : Bytes
  pub payload_json : Bytes
  pub queue : Bytes
  pub priority : ℤ

-- SELECT COUNT(*) … WHERE parent_id=?.
unfoldable pub count_children : ℕ → Brain → ℕ
count_children parent b = count (has_parent parent) b.jobs

unfoldable pub count_non_terminal_children : ℕ → Brain → ℕ
count_non_terminal_children parent b =
    count (λ j. has_parent parent j && not (is_terminal j.status)) b.jobs

pub record SpawnChildrenResult : Type 0 where
  pub status : JobOperationStatus
  pub parent_id : ℕ
  pub reason : String
  pub child_ids : List ℕ

pub data Checked : Type 0 where
  rejected : String → Checked
  payloads : List Bytes → Checked

abbrev pub add_payload : Bytes → Checked → Checked
add_payload p (rejected reason) = rejected reason
add_payload p (payloads ps) = payloads (p ∷ ps)

-- The checks on the specifications, made before the transaction.
unfoldable pub check_specs : Json → List ChildSpec → Checked
check_specs json [] = payloads []
check_specs json (spec ∷ specs) =
    let rest = check_specs json specs in
    if is_empty spec.type
    then rejected "children.type"
    else elim (canonical_message_payload json (or_empty_object spec.payload_json)) [
      | none ↦ rejected "children.payload_json"
      | some canonical ↦ add_payload canonical rest
    ]

abbrev pub child_row : Job → ChildSpec → Bytes → ℕ → ℕ → Job
child_row parent spec payload now id =
    record (new_row (if is_empty spec.queue then parent.queue else spec.queue) spec.type payload
      spec.priority now id) { parent_id = some parent.id; depth = parent.depth + 1 }

-- The loop of the INSERTs, one for each specification and its payload.
unfoldable pub insert_children : Job → List ChildSpec → List Bytes → ℕ → Brain → Brain × List ℕ
insert_children parent [] ps now b = (b, [])
insert_children parent (spec ∷ specs) [] now b = (b, [])
insert_children parent (spec ∷ specs) (p ∷ ps) now b =
    let (b', id) = insert (child_row parent spec p now) b in
    let (b'', ids) = insert_children parent specs ps now b' in (b'', id ∷ ids)

-- The guarded flip of the parent, and the children behind it.
unfoldable pub spawn_write : Job → List ChildSpec → List Bytes → ℕ → Brain → Option (Brain × List ℕ)
spawn_write parent specs ps now b =
    let (b', changes) =
      update (λ j. j.id == parent.id && is_waiting j.status) (unlocked waiting_children now) b in
    if changes == 0 then none else some (insert_children parent specs ps now b')

module _ (json : Json) where
  unfoldable pub spawn_children : ℕ → List ChildSpec → ℕ → Brain → Brain × SpawnChildrenResult
  spawn_children parent_id specs now b =
      let reply = λ (s : JobOperationStatus) (reason : String) (ids : List ℕ).
        let r : SpawnChildrenResult = record {
          status = s;
          parent_id = parent_id;
          reason = reason;
          child_ids = ids;
        } in
        r in
      if parent_id == 0
      then (b, reply invalid_argument "parent_id" [])
      else if is_empty specs
      then (b, reply invalid_argument "children" [])
      else if ltb job_max_child_fanout (length specs)
      then (b, reply invalid_argument "fanout" [])
      else elim (check_specs json specs) [
        | rejected reason ↦ (b, reply invalid_argument reason [])
        | payloads ps ↦ elim (select_id parent_id b) [
          | none ↦ (b, reply not_found "parent_id" [])
          | some parent ↦ elim parent.parent_id [
            | some grandparent ↦ (b, reply invalid_argument "depth" [])
            | none ↦ elim (spawn_write parent specs ps now b) [
              | none ↦ (b, reply invalid_state "parent_status" [])
              | some (b', ids) ↦ (b', reply success "" ids)
            ]
          ]
        ]
      ]

-- The statuses by their texts, as `std::map` orders them.
abbrev pub statuses : List Status
statuses = active ∷ cancelled ∷ completed ∷ dead ∷ failed ∷ paused ∷ waiting ∷ waiting_children ∷ []

-- SELECT status, COUNT(*) … GROUP BY status: only the statuses that occur.
unfoldable pub count_by_status : ℕ → List Status → Brain → List (Status × ℕ)
count_by_status parent [] b = []
count_by_status parent (s ∷ rest) b =
    let n =
      count (λ j. has_parent parent j && text_eq (status_text j.status) (status_text s)) b.jobs in
    if n == 0 then count_by_status parent rest b else (s, n) ∷ count_by_status parent rest b

-- The failed children by ascending id, at most eight.
unfoldable pub child_errors : ℕ → Brain → List (ℕ × Bytes)
child_errors parent b =
    map (λ (j : Job). (j.id, safe_progress_error (text_or_empty j.error_text)))
      (take job_aggregate_error_max_entries
        (select (λ j. has_parent parent j && is_failed j.status) b.jobs))

pub record AggregateResult : Type 0 where
  pub status : JobOperationStatus
  pub reason : String
  pub ready : Bool
  pub aggregated : Bool
  pub aggregate_json : Bytes

-- The fence row: inserted if the parent has none yet.
unfoldable pub try_begin_aggregation : ℕ → Brain → Brain × Bool
try_begin_aggregation parent b =
    if parent == 0
    then (b, false)
    else if any (λ p. p == parent) b.fences
    then (b, false)
    else (record b { fences = parent ∷ b.fences }, true)

-- The tables that a statement finds, when other connections write before it.
abbrev pub brain_at : (ℕ → Brain → Brain) → ℕ → Brain → Brain
brain_at others zero b = b
brain_at others (suc i) b = others i (brain_at others i b)

abbrev pub stored_result : Option Job → Bytes
stored_result none = []
stored_result (some j) = text_or_empty j.result_json

module _ (json : Json) where
  -- The tables as each of the three statements finds them: the count of the children, the groups
  -- by status, the failed children.
  unfoldable pub compute_aggregate_json : ℕ → (counted grouped listed : Brain) → Option Bytes
  compute_aggregate_json parent counted grouped listed =
      if parent == 0
      then none
      else if count_children parent counted == 0
      then none
      else let counts = count_by_status parent statuses grouped in
        if all (λ c. is_terminal c.0) counts
        then some (
            json.aggregate_object (map (λ (c : Status × ℕ). (status_text c.0, c.1)) counts)
              (child_errors parent listed))
        else none

  -- The transaction: the fence, and the guarded flip that stays authoritative.
  unfoldable pub aggregate_write : ℕ → Bytes → ℕ → Brain → Brain × Bool
  aggregate_write parent aggregate now b =
      let (b', first) = try_begin_aggregation parent b in
      changed (
        update (λ j. j.id == parent && is_waiting_children j.status)
          (λ j. record (unlocked completed now j) {
            result_json = some aggregate;
            error_text = none;
          })
          b')

  -- Only the transaction at the end is atomic: `others i` is what other connections write between
  -- the statement `i` and the next.
  unfoldable pub aggregate_if_ready : ℕ → ℕ → (ℕ → Brain → Brain) → Brain → Brain × AggregateResult
  aggregate_if_ready parent_id now others b =
      let reply =
        λ (s : JobOperationStatus) (reason : String) (ready aggregated : Bool) (text : Bytes).
          let r : AggregateResult = record {
            status = s;
            reason = reason;
            ready = ready;
            aggregated = aggregated;
            aggregate_json = text;
          } in
          r in
      let at = λ (i : ℕ). brain_at others i b in
      if parent_id == 0
      then (b, reply invalid_argument "parent_id" false false [])
      else elim (select_id parent_id b) [
        | none ↦ (b, reply not_found "parent_id" false false [])
        | some parent ↦
            if count_children parent_id (at 1) == 0
            then (at 1, reply invalid_state "not_parent" false false [])
            else if is_completed parent.status
            then (at 2, reply success "" true false (stored_result (select_id parent_id (at 2))))
            else if not (is_waiting_children parent.status)
            then (at 1, reply invalid_state "parent_status" false false [])
            else elim (compute_aggregate_json parent_id (at 2) (at 3) (at 4)) [
              | none ↦ (at 4, reply invalid_state "not_ready" false false [])
              | some aggregate ↦
                  let (b', done) = aggregate_write parent_id aggregate now (at 5) in
                  (b', reply success "" true done aggregate)
            ]
      ]
