-- ===== src/Jobs/History.antt =====
-- Any sequence of calls, by any number of workers, from an empty brain.
use qbrain.Prelude.{ℕ, List, [], ◌∷◌}
use qbrain.Jobs.Table.{Brain, empty_brain}
use qbrain.Jobs.Text.{Json}
use qbrain.Jobs.Invariant.{IsBrain, empty_brain-IsBrain}
use qbrain.Jobs.Preserved.{
  submit_job-IsBrain, claim_job-IsBrain, complete_job-IsBrain, fail_job-IsBrain, cancel_job-IsBrain,
  retry_job-IsBrain, replay_job_checked-IsBrain, pause_job-IsBrain, resume_job-IsBrain,
  reclaim_stalled-IsBrain,
}
use qbrain.Jobs.Preserved.Tree.{
  spawn_children-IsBrain, aggregate_write-IsBrain, cancel_job_tree-IsBrain,
  retry_job_hierarchy-IsBrain, try_begin_aggregation-IsBrain,
}
use qbrain.Jobs.Calls.{Call, step, run}

module _ (json : Json) where
  step-IsBrain : (c : ℕ × Call) (b : Brain) → IsBrain b → IsBrain (step json c b)
  unfolding step
  step-IsBrain (now, Call.submit type payload queue priority) b v =
      submit_job-IsBrain type payload queue priority now b v
  step-IsBrain (now, Call.claim token lock_ms queue types) b v =
      claim_job-IsBrain token lock_ms queue types now b v
  step-IsBrain (now, Call.complete id token result) b v =
      complete_job-IsBrain id token result now b v
  step-IsBrain (now, Call.fail id token error) b v = fail_job-IsBrain json id token error now b v
  step-IsBrain (now, Call.cancel id) b v = cancel_job-IsBrain id now b v
  step-IsBrain (now, Call.retry id) b v = retry_job-IsBrain id now b v
  step-IsBrain (now, Call.replay id) b v = replay_job_checked-IsBrain id now b v
  step-IsBrain (now, Call.pause id) b v = pause_job-IsBrain id now b v
  step-IsBrain (now, Call.resume id) b v = resume_job-IsBrain id now b v
  step-IsBrain (now, Call.reclaim queue) b v = reclaim_stalled-IsBrain queue now b v
  step-IsBrain (now, Call.spawn id specs) b v = spawn_children-IsBrain json id specs now b v
  step-IsBrain (now, Call.aggregate id text) b v = aggregate_write-IsBrain json id text now b v
  step-IsBrain (now, Call.cancel_tree id) b v = cancel_job_tree-IsBrain id now b v
  step-IsBrain (now, Call.retry_tree id) b v = retry_job_hierarchy-IsBrain id now b v
  step-IsBrain (now, Call.begin_aggregation id) b v = try_begin_aggregation-IsBrain id b v

  pub run_keeps-IsBrain : (cs : List (ℕ × Call)) (b : Brain) → IsBrain b → IsBrain (run json cs b)
  unfolding run
  run_keeps-IsBrain [] b v = v
  run_keeps-IsBrain (c ∷ cs) b v = run_keeps-IsBrain cs (step json c b) (step-IsBrain c b v)

  -- After any sequence of calls from an empty brain the ids of the jobs ascend strictly up to the
  -- counter, a job has a lock with a token that is not empty exactly while it is active, and a job
  -- has depth 0, or depth 1 and a parent in the table that is itself no child.
  pub run-IsBrain : (cs : List (ℕ × Call)) → IsBrain (run json cs empty_brain)
  run-IsBrain cs = run_keeps-IsBrain cs empty_brain empty_brain-IsBrain
