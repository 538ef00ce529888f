-- ===== src/Jobs/Hierarchy.antt =====
-- The hierarchy of a job in minions.cpp: reading it, cancelling it and retrying it.
use Prim.Native.String.{String}
use qbrain.Prelude.{
  ℕ, Bool, false, ◌&&◌, ◌||◌, Option, none, some, List, select, ◌==◌, ltb, if◌then◌else◌,
}
use qbrain.Jobs.Table.{
  cancelled, Job, Brain, waiting_or_active, is_cancellable_parent, has_parent, update, select_id,
}
use qbrain.Jobs.Queue.{
  JobOperationStatus, success, invalid_argument, not_found, invalid_state, unlocked, cancel_job,
  retry_job,
}
use qbrain.Jobs.Tree.{count_children, count_non_terminal_children}

pub record JobHierarchy : Type 0 where
  pub id : ℕ
  pub parent_id : Option ℕ
  pub depth : ℕ
  pub child_count : ℕ
  pub children : List Job

unfoldable pub get_job_hierarchy : ℕ → Brain → Option JobHierarchy
get_job_hierarchy id b = if id == 0 then none else elim (select_id id b) [
  | none ↦ none
  | some j ↦ some (record {
    id = id;
    parent_id = j.parent_id;
    depth = j.depth;
    child_count = count_children id b;
    children = select (has_parent id) b.jobs;
  })
]

pub record CancelTreeResult : Type 0 where
  pub status : JobOperationStatus
  pub reason : String
  pub cancelled : Bool
  pub cancelled_children : ℕ

-- The transaction on a parent: its open children, and then the parent itself.
unfoldable pub cancel_family : ℕ → ℕ → Brain → Brain × (Bool × ℕ)
cancel_family id now b =
    let (b', children) =
      update (λ j. has_parent id j && waiting_or_active j.status) (unlocked cancelled now) b in
    let (b'', self) =
      update (λ j. j.id == id && is_cancellable_parent j.status) (unlocked cancelled now) b' in
    (b'', (ltb 0 self, children))

unfoldable pub cancel_job_tree : ℕ → ℕ → Brain → Brain × CancelTreeResult
cancel_job_tree id now b =
    let reply = λ (s : JobOperationStatus) (reason : String) (self : Bool) (children : ℕ).
      let r : CancelTreeResult = record {
        status = s;
        reason = reason;
        cancelled = self;
        cancelled_children = children;
      } in
      r in
    if id == 0 then (b, reply invalid_argument "job_id" false 0) else elim (select_id id b) [
      | none ↦ (b, reply not_found "job_id" false 0)
      | some j ↦
          if count_children id b == 0
          then (let (b', self) = cancel_job id now b in
              (b', reply (if self then success else invalid_state) "" self 0))
          else let (b', (self, children)) = cancel_family id now b in
            (b', reply (if self || ltb 0 children then success else invalid_state) "" self children)
    ]

pub record RetryTreeResult : Type 0 where
  pub status : JobOperationStatus
  pub reason : String
  pub requeued : Bool

unfoldable pub retry_job_hierarchy : ℕ → ℕ → Brain → Brain × RetryTreeResult
retry_job_hierarchy id now b =
    let reply = λ (s : JobOperationStatus) (reason : String) (requeued : Bool).
      let r : RetryTreeResult = record { status = s; reason = reason; requeued = requeued } in r in
    if id == 0 then (b, reply invalid_argument "job_id" false) else elim (select_id id b) [
      | none ↦ (b, reply not_found "job_id" false)
      | some j ↦
          if ltb 0 (count_children id b)
          then (
            b,
            reply invalid_state
                (if ltb 0 (count_non_terminal_children id b)
                  then "non_terminal_children"
                  else "parent_not_retryable")
                false,
          )
          else let (b', requeued) = retry_job id now b in
            (
              b',
              reply (if requeued then success else invalid_state)
                  (if requeued then "" else "not_retryable_status") requeued,
            )
    ]
