-- ===== src/Jobs/Preserved.antt =====
-- Every call on single jobs keeps the invariant; `Tree` has the calls on families.
pub mod Tree
use mathlib.Core.Path.{subst}
use qbrain.Prelude.{
  ==_iff, ℕ, suc, ◌+◌, ◌≤◌, ◌<◌, ◌≡◌, ◌≢◌, ◌⊎◌, inl, inr, refl, ap, ◌∙◌, sym, Bool, true, false,
  not, ◌&&◌, ◌||◌, Option, none, some, List, [], ◌∷◌, ◌++◌, count, find?, any, ltb, ◌==◌,
  if◌then◌else◌, All, All-append, length, arith, is_empty, Bytes, Bool-cases, Option-cases,
}
use qbrain.Prelude.Int.{ℤ}
use qbrain.Jobs.Table.{
  Status, Job, failed_or_completed, Brain, update, insert, select_id, empty_brain, is_active,
  is_waiting, waiting_children, completed,
}
use qbrain.Jobs.Text.{Json}
use qbrain.Jobs.Queue.{
  submit_job, claim_job, claim_selected, claim_write, complete_job, fail_job, cancel_job, retry_job,
  pause_job, resume_job, reclaim_stalled, unlocked, new_row,
}
use qbrain.Jobs.Replay.{replay_job_checked, insert_replay}
use qbrain.Jobs.Tree.{
  ChildSpec, child_row, check_specs, rejected, payloads, insert_children, spawn_write,
  spawn_children, aggregate_write, aggregate_if_ready, try_begin_aggregation,
}
use qbrain.Jobs.Hierarchy.{cancel_family, cancel_job_tree, retry_job_hierarchy}
use qbrain.Jobs.Rows.{find-root, is_root, any-rewrite, any-append, find_id, find-All}
use qbrain.Jobs.Invariant.{
  IsBrain, lock_ok, place_of, place_ok, KeepsPlace, update-IsBrain, insert-IsBrain,
  empty_brain-IsBrain,
}
use qbrain.Jobs.Calls

pub submit_job-IsBrain :
    (type payload queue : Bytes) (priority : ℤ) (now : ℕ) (b : Brain)
    → IsBrain b
    → IsBrain (submit_job type payload queue priority now b).0
unfolding submit_job
submit_job-IsBrain type payload queue priority now b v =
    insert-IsBrain _ b (λ _. refl) (λ _. refl) (λ _. refl) v

pub reclaim_stalled-IsBrain :
    (queue : Bytes) (now : ℕ) (b : Brain) → IsBrain b → IsBrain (reclaim_stalled queue now b).0
unfolding reclaim_stalled
reclaim_stalled-IsBrain queue now b v =
    update-IsBrain _ _ b (record { ids = λ _. refl; parents = λ _. refl; depths = λ _. refl })
      (λ _. refl) v

pub claim_write-IsBrain :
    (id : ℕ) (token : Bytes) (lock_ms : ℤ) (now : ℕ) (b : Brain)
    → is_empty token ≡ false
    → IsBrain b
    → IsBrain (claim_write id token lock_ms now b).0
unfolding claim_write
claim_write-IsBrain id token lock_ms now b full v =
    update-IsBrain _ _ b (record { ids = λ _. refl; parents = λ _. refl; depths = λ _. refl })
      (λ _. rw full) v

pub claim_selected-IsBrain :
    (found : Option Job) (token : Bytes) (lock_ms : ℤ) (now : ℕ) (b : Brain)
    → is_empty token ≡ false
    → IsBrain b
    → IsBrain (claim_selected found token lock_ms now b).0
unfolding claim_selected
claim_selected-IsBrain none token lock_ms now b full v = v
claim_selected-IsBrain (some j) token lock_ms now b full v =
    claim_write-IsBrain j.id token lock_ms now b full v

pub claim_job-IsBrain :
    (token : Bytes) (lock_ms : ℤ) (queue : Bytes) (types : List Bytes) (now : ℕ) (b : Brain)
    → IsBrain b
    → IsBrain (claim_job token lock_ms queue types now b).0
unfolding claim_job
claim_job-IsBrain token lock_ms queue types now b v = elim (Bool-cases (is_empty token)) [
  | inl bare ↦ rw bare v
  | inr full ↦
      rw full
        (claim_selected-IsBrain _ token lock_ms now _ full (reclaim_stalled-IsBrain queue now b v))
]

pub complete_job-IsBrain :
    (id : ℕ) (token result : Bytes) (now : ℕ) (b : Brain)
    → IsBrain b
    → IsBrain (complete_job id token result now b).0
unfolding complete_job
complete_job-IsBrain id token result now b v = elim (Bool-cases (is_empty token)) [
  | inl bare ↦ rw bare v
  | inr full ↦ rw full (
      update-IsBrain _ _ b (record { ids = λ _. refl; parents = λ _. refl; depths = λ _. refl })
        (λ _. refl) v)
]

pub fail_job-IsBrain :
    (json : Json) (id : ℕ) (token error : Bytes) (now : ℕ) (b : Brain)
    → IsBrain b
    → IsBrain (Calls.after_fail b (fail_job json id token error now b))
unfolding fail_job
fail_job-IsBrain json id token error now b v = elim (Bool-cases (is_empty token)) [
  | inl bare ↦ rw bare v
  | inr full ↦ rw full (elim (Option-cases (json.error_object error)) [
    | inl e ↦ rw e v
    | inr (object, e) ↦ rw e (
        update-IsBrain _ _ b (record { ids = λ _. refl; parents = λ _. refl; depths = λ _. refl })
          (λ _. refl) v)
  ])
]

pub unlocked-update-IsBrain :
    (selects : Job → Bool) (status : Status) (now : ℕ) (b : Brain)
    → is_active status ≡ false
    → IsBrain b
    → IsBrain (update selects (unlocked status now) b).0
unlocked-update-IsBrain selects status now b idle v =
    update-IsBrain _ _ b (record { ids = λ _. refl; parents = λ _. refl; depths = λ _. refl })
      (λ _. rw idle) v

pub cancel_job-IsBrain : (id now : ℕ) (b : Brain) → IsBrain b → IsBrain (cancel_job id now b).0
unfolding cancel_job
cancel_job-IsBrain id now b = unlocked-update-IsBrain _ _ now b refl

pub retry_job-IsBrain : (id now : ℕ) (b : Brain) → IsBrain b → IsBrain (retry_job id now b).0
unfolding retry_job
retry_job-IsBrain id now b v =
    update-IsBrain _ _ b (record { ids = λ _. refl; parents = λ _. refl; depths = λ _. refl })
      (λ _. refl) v

pub pause_job-IsBrain : (id now : ℕ) (b : Brain) → IsBrain b → IsBrain (pause_job id now b).0
unfolding pause_job
pause_job-IsBrain id now b v = elim (Bool-cases (id == 0)) [
  | inl bad ↦ rw bad v
  | inr good ↦ rw good (unlocked-update-IsBrain _ _ now b refl v)
]

pub resume_job-IsBrain : (id now : ℕ) (b : Brain) → IsBrain b → IsBrain (resume_job id now b).0
unfolding resume_job
resume_job-IsBrain id now b v = elim (Bool-cases (id == 0)) [
  | inl bad ↦ rw bad v
  | inr good ↦ rw good (unlocked-update-IsBrain _ _ now b refl v)
]

pub replay_job_checked-IsBrain :
    (id now : ℕ) (b : Brain) → IsBrain b → IsBrain (replay_job_checked id now b).0
unfolding replay_job_checked insert_replay
replay_job_checked-IsBrain id now b v = elim (Bool-cases (id == 0)) [
  | inl bad ↦ rw bad v
  | inr good ↦ rw good (elim (Option-cases (select_id id b)) [
    | inl e ↦ rw e v
    | inr (j, e) ↦ rw e (elim (Bool-cases (failed_or_completed j.status)) [
      | inl ended ↦
          rw (ended, e, ended)
            (insert-IsBrain (new_row j.queue j.type j.payload_json j.priority now) b (λ _. refl)
              (λ _. refl) (λ _. refl) v)
      | inr open_job ↦ rw open_job v
    ])
  ])
]
