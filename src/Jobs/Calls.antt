-- ===== src/Jobs/Calls.antt =====
-- The calls that change the tables, and runs of them in any order by any number of workers: each
-- statement or transaction is atomic, so a run is a list of calls with the times that they read. An
-- aggregation stands for its transaction, with any text that the statements before it led to.
use qbrain.Prelude.{ℕ, Bytes, Option, none, some, List, [], ◌∷◌, Bool}
use qbrain.Prelude.Int.{ℤ}
use qbrain.Jobs.Table.{Brain}
use qbrain.Jobs.Text.{Json}
use qbrain.Jobs.Queue.{
  submit_job, claim_job, complete_job, fail_job, cancel_job, retry_job, pause_job, resume_job,
  reclaim_stalled,
}
use qbrain.Jobs.Replay.{replay_job_checked}
use qbrain.Jobs.Tree.{ChildSpec, spawn_children, aggregate_write, try_begin_aggregation}
use qbrain.Jobs.Hierarchy.{cancel_job_tree, retry_job_hierarchy}

pub data Call : Type 0 where
  submit : (type payload queue : Bytes) → (priority : ℤ) → Call
  claim : (token : Bytes) → (lock_ms : ℤ) → (queue : Bytes) → (types : List Bytes) → Call
  complete : (id : ℕ) → (token result : Bytes) → Call
  fail : (id : ℕ) → (token error : Bytes) → Call
  cancel : ℕ → Call
  retry : ℕ → Call
  replay : ℕ → Call
  pause : ℕ → Call
  resume : ℕ → Call
  reclaim : Bytes → Call
  spawn : ℕ → List ChildSpec → Call
  aggregate : (id : ℕ) → (text : Bytes) → Call
  cancel_tree : ℕ → Call
  retry_tree : ℕ → Call
  begin_aggregation : ℕ → Call

-- An exception leaves the tables as they were.
abbrev pub after_fail : Brain → Option (Brain × Bool) → Brain
after_fail b none = b
after_fail b (some (b', done)) = b'

module _ (json : Json) where
  unfoldable pub step : ℕ × Call → Brain → Brain
  step (now, submit type payload queue priority) b =
      (submit_job type payload queue priority now b).0
  step (now, claim token lock_ms queue types) b = (claim_job token lock_ms queue types now b).0
  step (now, complete id token result) b = (complete_job id token result now b).0
  step (now, fail id token error) b = after_fail b (fail_job json id token error now b)
  step (now, cancel id) b = (cancel_job id now b).0
  step (now, retry id) b = (retry_job id now b).0
  step (now, replay id) b = (replay_job_checked id now b).0
  step (now, pause id) b = (pause_job id now b).0
  step (now, resume id) b = (resume_job id now b).0
  step (now, reclaim queue) b = (reclaim_stalled queue now b).0
  step (now, spawn id specs) b = (spawn_children json id specs now b).0
  step (now, aggregate id text) b = (aggregate_write json id text now b).0
  step (now, cancel_tree id) b = (cancel_job_tree id now b).0
  step (now, retry_tree id) b = (retry_job_hierarchy id now b).0
  step (now, begin_aggregation id) b = (try_begin_aggregation id b).0

  unfoldable pub run : List (ℕ × Call) → Brain → Brain
  run [] b = b
  run (c ∷ cs) b = run cs (step c b)
