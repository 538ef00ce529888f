-- ===== src/Jobs/Completed.antt =====
-- A completed job is final: no call, by anybody, writes its row again.
use qbrain.Prelude.{
  ℕ, ◌≡◌, refl, ap, ◌∙◌, Bool, false, Option, none, some, List, [], ◌∷◌, ◌==◌, if◌then◌else◌,
  is_empty, Bytes, Bool-cases, Option-cases, arith, any, inl, inr,
}
use qbrain.Prelude.Int.{ℤ}
use qbrain.Jobs.Table.{
  completed, cancelled, waiting_children, Job, Brain, select_id, update, insert,
}
use qbrain.Jobs.Text.{Json}
use qbrain.Jobs.Queue.{
  submit_job, claim_job, claim_selected, claim_write, complete_job, fail_job, cancel_job, retry_job,
  pause_job, resume_job, reclaim_stalled, unlocked,
}
use qbrain.Jobs.Replay.{replay_job_checked}
use qbrain.Jobs.Tree.{
  ChildSpec, child_row, insert_children, spawn_children, aggregate_write, try_begin_aggregation,
}
use qbrain.Jobs.Hierarchy.{cancel_family, cancel_job_tree, retry_job_hierarchy}
use qbrain.Jobs.Rows.{find-rewrite, find-append}
use mathlib.Core.Path.{subst}
use qbrain.Jobs.Cases.{
  spawn_children_cases, replay_job_checked_cases, cancel_job_tree_cases, retry_job_hierarchy_cases,
  spawn_write_lem,
}
use qbrain.Jobs.Calls
use qbrain.Jobs.Calls.{Call, step, run}

pub select-update :
    (selects : Job → Bool) (set : Job → Job) (id : ℕ) (j : Job) (b : Brain)
    → ((k : Job) → (set k).id ≡ k.id)
    → select_id id b ≡ some j
    → select_id id (update selects set b).0 ≡ some (if selects j then set j else j)
unfolding select_id update
select-update selects set id j b keep e = find-rewrite selects set id b.jobs j keep e

pub select-insert :
    (row : ℕ → Job) (id : ℕ) (j : Job) (b : Brain)
    → select_id id b ≡ some j
    → select_id id (insert row b).0 ≡ some j
unfolding select_id insert
select-insert row id j b e = find-append id b.jobs _ j e

-- The row with an id is there and is not written again.
module _ (id : ℕ) (j : Job) (done : j.status ≡ completed) where
  Final : Brain → Type 0
  Final b = select_id id b ≡ some j

  update-Final :
      (selects : Job → Bool) (set : Job → Job) (b : Brain)
      → ((k : Job) → (set k).id ≡ k.id)
      → selects j ≡ false
      → Final b
      → Final (update selects set b).0
  unfolding Final
  update-Final selects set b keep passed e =
      select-update selects set id j b keep e ∙ ap (λ t. some (if t then set j else j)) passed

  insert-Final : (row : ℕ → Job) (b : Brain) → Final b → Final (insert row b).0
  unfolding Final
  insert-Final row b e = select-insert row id j b e

  submit_job-Final :
      (type payload queue : Bytes) (priority : ℤ) (now : ℕ) (b : Brain)
      → Final b
      → Final (submit_job type payload queue priority now b).0
  unfolding submit_job
  submit_job-Final type payload queue priority now b = insert-Final _ b

  claim_selected-Final :
      (found : Option Job) (token : Bytes) (lock_ms : ℤ) (now : ℕ) (b : Brain)
      → Final b
      → Final (claim_selected found token lock_ms now b).0
  unfolding claim_selected claim_write
  claim_selected-Final none token lock_ms now b e = e
  claim_selected-Final (some k) token lock_ms now b e =
      update-Final _ _ b (λ _. refl) (ground arith) e

  reclaim_stalled-Final :
      (queue : Bytes) (now : ℕ) (b : Brain) → Final b → Final (reclaim_stalled queue now b).0
  unfolding reclaim_stalled
  reclaim_stalled-Final queue now b e = update-Final _ _ b (λ _. refl) (ground arith) e

  claim_job-Final :
      (token : Bytes) (lock_ms : ℤ) (queue : Bytes) (types : List Bytes) (now : ℕ) (b : Brain)
      → Final b
      → Final (claim_job token lock_ms queue types now b).0
  unfolding claim_job
  claim_job-Final token lock_ms queue types now b e = elim (Bool-cases (is_empty token)) [
    | inl bare ↦ rw bare e
    | inr full ↦
        rw full (claim_selected-Final _ token lock_ms now _ (reclaim_stalled-Final queue now b e))
  ]

  complete_job-Final :
      (k : ℕ) (token result : Bytes) (now : ℕ) (b : Brain)
      → Final b
      → Final (complete_job k token result now b).0
  unfolding complete_job
  complete_job-Final k token result now b e = elim (Bool-cases (is_empty token)) [
    | inl bare ↦ rw bare e
    | inr full ↦ rw full (update-Final _ _ b (λ _. refl) (ground arith) e)
  ]

  fail_job-Final :
      (json : Json) (k : ℕ) (token error : Bytes) (now : ℕ) (b : Brain)
      → Final b
      → Final (Calls.after_fail b (fail_job json k token error now b))
  unfolding fail_job
  fail_job-Final json k token error now b e = elim (Bool-cases (is_empty token)) [
    | inl bare ↦ rw bare e
    | inr full ↦ rw full (elim (Option-cases (json.error_object error)) [
      | inl refused ↦ rw refused e
      | inr (object, dumped) ↦ rw dumped (update-Final _ _ b (λ _. refl) (ground arith) e)
    ])
  ]

  cancel_job-Final : (k now : ℕ) (b : Brain) → Final b → Final (cancel_job k now b).0
  unfolding cancel_job
  cancel_job-Final k now b = update-Final _ _ b (λ _. refl) (ground arith)

  retry_job-Final : (k now : ℕ) (b : Brain) → Final b → Final (retry_job k now b).0
  unfolding retry_job
  retry_job-Final k now b = update-Final _ _ b (λ _. refl) (ground arith)

  pause_job-Final : (k now : ℕ) (b : Brain) → Final b → Final (pause_job k now b).0
  unfolding pause_job
  pause_job-Final k now b e = elim (Bool-cases (k == 0)) [
    | inl bad ↦ rw bad e
    | inr good ↦ rw good (update-Final _ _ b (λ _. refl) (ground arith) e)
  ]

  resume_job-Final : (k now : ℕ) (b : Brain) → Final b → Final (resume_job k now b).0
  unfolding resume_job
  resume_job-Final k now b e = elim (Bool-cases (k == 0)) [
    | inl bad ↦ rw bad e
    | inr good ↦ rw good (update-Final _ _ b (λ _. refl) (ground arith) e)
  ]

  replay_job_checked-Final :
      (k now : ℕ) (b : Brain) → Final b → Final (replay_job_checked k now b).0
  replay_job_checked-Final k now b e =
      replay_job_checked_cases Final k now b e λ row. insert-Final row b e

  insert_children-Final :
      (parent : Job) (specs : List ChildSpec) (ps : List Bytes) (now : ℕ) (b : Brain)
      → Final b
      → Final (insert_children parent specs ps now b).0
  unfolding insert_children
  insert_children-Final parent [] ps now b e = e
  insert_children-Final parent (spec ∷ specs) [] now b e = e
  insert_children-Final parent (spec ∷ specs) (p ∷ ps) now b e =
      insert_children-Final parent specs ps now _ (insert-Final (child_row parent spec p now) b e)

  spawn_children-Final :
      (json : Json) (k : ℕ) (specs : List ChildSpec) (now : ℕ) (b : Brain)
      → Final b
      → Final (spawn_children json k specs now b).0
  spawn_children-Final json k specs now b e =
      spawn_children_cases (λ r. Final r.0) json k specs now b (λ _ _ _. e)
        λ parent ps r _ _ _ w _ _.
          subst (λ (t : Brain × List ℕ). Final t.0) (spawn_write_lem parent specs ps now b r w)
            (insert_children-Final parent specs ps now _
              (update-Final _ (unlocked waiting_children now) b (λ _. refl) (ground arith) e))

  try_begin_aggregation-Final : (k : ℕ) (b : Brain) → Final b → Final (try_begin_aggregation k b).0
  unfolding try_begin_aggregation Final select_id
  try_begin_aggregation-Final k b e = elim (Bool-cases (k == 0)) [
    | inl bad ↦ rw bad e
    | inr good ↦
        rw good (elim (Bool-cases (any (λ p. p == k) b.fences)) [
          | inl old ↦ rw old e
          | inr new ↦ rw new e
        ])
  ]

  aggregate_write-Final :
      (json : Json) (k : ℕ) (text : Bytes) (now : ℕ) (b : Brain)
      → Final b
      → Final (aggregate_write json k text now b).0
  unfolding aggregate_write
  aggregate_write-Final json k text now b e =
      update-Final _ _ _ (λ _. refl) (ground arith) (try_begin_aggregation-Final k b e)

  cancel_family-Final : (k now : ℕ) (b : Brain) → Final b → Final (cancel_family k now b).0
  unfolding cancel_family
  cancel_family-Final k now b e =
      update-Final _ (unlocked cancelled now) _ (λ _. refl) (ground arith)
        (update-Final _ (unlocked cancelled now) b (λ _. refl) (ground arith) e)

  cancel_job_tree-Final : (k now : ℕ) (b : Brain) → Final b → Final (cancel_job_tree k now b).0
  cancel_job_tree-Final k now b e =
      cancel_job_tree_cases Final k now b e (cancel_job-Final k now b e)
        (cancel_family-Final k now b e)

  retry_job_hierarchy-Final :
      (k now : ℕ) (b : Brain) → Final b → Final (retry_job_hierarchy k now b).0
  retry_job_hierarchy-Final k now b e =
      retry_job_hierarchy_cases Final k now b e (retry_job-Final k now b e)

module _ (json : Json) where
  step-Final :
      (id : ℕ) (j : Job) (done : j.status ≡ completed) (c : ℕ × Call) (b : Brain)
      → Final id j done b
      → Final id j done (step json c b)
  unfolding step
  step-Final id j d (now, Call.submit type payload queue priority) b =
      submit_job-Final id j d type payload queue priority now b
  step-Final id j d (now, Call.claim token lock_ms queue types) b =
      claim_job-Final id j d token lock_ms queue types now b
  step-Final id j d (now, Call.complete k token result) b =
      complete_job-Final id j d k token result now b
  step-Final id j d (now, Call.fail k token error) b =
      fail_job-Final id j d json k token error now b
  step-Final id j d (now, Call.cancel k) b = cancel_job-Final id j d k now b
  step-Final id j d (now, Call.retry k) b = retry_job-Final id j d k now b
  step-Final id j d (now, Call.replay k) b = replay_job_checked-Final id j d k now b
  step-Final id j d (now, Call.pause k) b = pause_job-Final id j d k now b
  step-Final id j d (now, Call.resume k) b = resume_job-Final id j d k now b
  step-Final id j d (now, Call.reclaim queue) b = reclaim_stalled-Final id j d queue now b
  step-Final id j d (now, Call.spawn k specs) b = spawn_children-Final id j d json k specs now b
  step-Final id j d (now, Call.aggregate k text) b = aggregate_write-Final id j d json k text now b
  step-Final id j d (now, Call.cancel_tree k) b = cancel_job_tree-Final id j d k now b
  step-Final id j d (now, Call.retry_tree k) b = retry_job_hierarchy-Final id j d k now b
  step-Final id j d (now, Call.begin_aggregation k) b = try_begin_aggregation-Final id j d k b

  -- Once a job is completed, its row (the result included) is the same after any sequence of calls.
  pub run_keeps_completed :
      (cs : List (ℕ × Call)) (id : ℕ) (j : Job) (b : Brain)
      → j.status ≡ completed
      → select_id id b ≡ some j
      → select_id id (run json cs b) ≡ some j
  unfolding run
  run_keeps_completed [] id j b done e = e
  run_keeps_completed (c ∷ cs) id j b done e =
      run_keeps_completed cs id j (step json c b) done (unfold Final in step-Final id j done c b e)
