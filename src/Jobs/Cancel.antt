-- ===== src/Jobs/Cancel.antt =====
-- What cancelling a job with children does to the rows.
use qbrain.Prelude.{
  ℕ, ◌≡◌, refl, ap, ◌∙◌, Bool, false, ◌&&◌, some, List, [], ◌∷◌, ◌==◌, if◌then◌else◌, arith, count,
  All,
}
use qbrain.Jobs.Table.{
  paused, cancelled, Job, Brain, select_id, update, rewrite, has_parent, waiting_or_active,
}
use qbrain.Jobs.Queue.{unlocked, cancel_job}
use qbrain.Jobs.Tree.{count_children}
use qbrain.Jobs.Hierarchy.{cancel_family, cancel_job_tree}
use qbrain.Jobs.Rows.{rewrite-All}
use qbrain.Jobs.Completed.{select-update}
use qbrain.Jobs.Cases.{cancel_job_tree_cases}

All-true {ℓ κ} : {A : Type ℓ} (P : A → Type κ) (xs : List A) → ((x : A) → P x) → All P xs
All-true P [] h = tt
All-true P (x ∷ xs) h = (h x, All-true P xs h)

-- No child of the parent is waiting or active.
abbrev pub NoneRunning : ℕ → Brain → Type 0
NoneRunning id b = All (λ j. (has_parent id j && waiting_or_active j.status) ≡ false) b.jobs

rewrite-gone :
    (selects : Job → Bool) (set : Job → Job) (js : List Job)
    → ((j : Job) → selects (set j) ≡ false)
    → All (λ j. selects j ≡ false) (rewrite selects set js)
unfolding rewrite
rewrite-gone selects set [] gone = tt
rewrite-gone selects set (j ∷ js) gone = ground (arith, gone j, rewrite-gone selects set js gone)

cancel_family-NoneRunning : (id now : ℕ) (b : Brain) → NoneRunning id (cancel_family id now b).0
unfolding cancel_family update
cancel_family-NoneRunning id now b =
    rewrite-All _ (unlocked cancelled now) _ (rewrite _ _ b.jobs) (λ j _ _. ground arith)
      (rewrite-gone (λ j. has_parent id j && waiting_or_active j.status) (unlocked cancelled now)
        b.jobs (λ j. ground arith))

-- Cancelling a job that has children leaves none of its children waiting or active, and reports how
-- many there were.
pub cancel_job_tree-NoneRunning :
    (id now : ℕ) (b : Brain) (j : Job)
    → (id == 0) ≡ false
    → select_id id b ≡ some j
    → (count_children id b == 0) ≡ false
    → NoneRunning id (cancel_job_tree id now b).0
      × ((cancel_job_tree id now b).1.cancelled_children
          ≡ count (λ k. has_parent id k && waiting_or_active k.status) b.jobs)
unfolding cancel_job_tree
cancel_job_tree-NoneRunning id now b j good e parent =
    rw (good, e, parent) (cancel_family-NoneRunning id now b, unfold cancel_family update in refl)

-- A paused row passes none of the statements of a cancellation, so it stays: also if it is a child
-- of the job that is cancelled.
pub cancel_job_tree_keeps_paused :
    (id k now : ℕ) (b : Brain) (j : Job)
    → select_id k b ≡ some j
    → j.status ≡ paused
    → select_id k (cancel_job_tree id now b).0 ≡ some j
cancel_job_tree_keeps_paused id k now b j e p =
    cancel_job_tree_cases (λ t. select_id k t ≡ some j) id now b e
      (unfold cancel_job in kept _ b e (ground arith))
      (unfold cancel_family in kept _ _ (kept _ b e (ground arith)) (ground arith))
  where
    kept :
        (selects : Job → Bool) (t : Brain)
        → select_id k t ≡ some j
        → selects j ≡ false
        → select_id k (update selects (unlocked cancelled now) t).0 ≡ some j
    kept selects t e' passed =
        select-update selects (unlocked cancelled now) k j t (λ _. refl) e'
        ∙ ap (λ x. some (if x then unlocked cancelled now j else j)) passed
