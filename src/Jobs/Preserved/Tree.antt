-- ===== src/Jobs/Preserved/Tree.antt =====
-- Every call on parents and children keeps the invariant.
use mathlib.Core.Path.{subst}
use qbrain.Prelude.{
  ==_iff, ℕ, suc, ◌≡◌, inl, inr, refl, ap, ◌∙◌, sym, true, none, some, List, [], ◌∷◌, any, ◌==◌,
  arith, Bytes, Bool-cases,
}
use qbrain.Jobs.Table.{Job, Brain, update, insert, select_id, waiting_children}
use qbrain.Jobs.Text.{Json}
use qbrain.Jobs.Queue.{unlocked}
use qbrain.Jobs.Tree.{
  ChildSpec, child_row, insert_children, spawn_write, spawn_children, aggregate_write,
  try_begin_aggregation,
}
use qbrain.Jobs.Hierarchy.{cancel_family, cancel_job_tree, retry_job_hierarchy}
use qbrain.Jobs.Rows.{find-root, is_root, any-rewrite, any-append, find_id, find-All}
use qbrain.Jobs.Invariant.{IsBrain, place_of, place_ok, update-IsBrain, insert-IsBrain}
use qbrain.Jobs.Preserved.{unlocked-update-IsBrain, cancel_job-IsBrain, retry_job-IsBrain}
use qbrain.Jobs.Cases.{spawn_children_cases, flip_parent, spawn_write_lem}

any-insert :
    (row : ℕ → Job) (p : ℕ) (b : Brain)
    → any (is_root p) b.jobs ≡ true
    → any (is_root p) (insert row b).0.jobs ≡ true
unfolding insert
any-insert row p b h = any-append (is_root p) b.jobs (row (suc b.last_job) ∷ []) h

child_row-place_ok :
    (parent : Job) (spec : ChildSpec) (payload : Bytes) (now id : ℕ) (js : List Job)
    → parent.depth ≡ 0
    → any (is_root parent.id) js ≡ true
    → place_ok js (child_row parent spec payload now id) ≡ true
child_row-place_ok parent spec payload now id js d root = ground arith

pub insert_children-IsBrain :
    (parent : Job) (specs : List ChildSpec) (ps : List Bytes) (now : ℕ) (b : Brain)
    → parent.depth ≡ 0
    → any (is_root parent.id) b.jobs ≡ true
    → IsBrain b
    → IsBrain (insert_children parent specs ps now b).0
unfolding insert_children
insert_children-IsBrain parent [] ps now b d root v = v
insert_children-IsBrain parent (spec ∷ specs) [] now b d root v = v
insert_children-IsBrain parent (spec ∷ specs) (p ∷ ps) now b d root v =
    let row = child_row parent spec p now in
    insert_children-IsBrain parent specs ps now (insert row b).0 d (any-insert row parent.id b root)
      (insert-IsBrain row b (λ _. refl) (λ _. refl)
        (λ id. child_row-place_ok parent spec p now id b.jobs d root) v)

-- A root row of a well-formed table has depth 0.
root_depth :
    (id : ℕ) (b : Brain) (j : Job)
    → IsBrain b
    → select_id id b ≡ some j
    → j.parent_id ≡ none
    → j.depth ≡ 0
unfolding select_id
root_depth id b j v e root =
    let place = find-All (λ k. place_ok b.jobs k ≡ true) id b.jobs j v.placed e in
    (==_iff j.depth 0).0 (sym (ap (λ o. place_of b.jobs o j.depth) root) ∙ place)

root_of_select :
    (id : ℕ) (b : Brain) (parent : Job)
    → select_id id b ≡ some parent
    → parent.parent_id ≡ none
    → any (is_root parent.id) b.jobs ≡ true
unfolding select_id
root_of_select id b parent e root =
    rw (find_id id b.jobs parent e) (find-root id b.jobs parent e root)

flip_keeps_root :
    (p parent now : ℕ) (b : Brain)
    → any (is_root p) b.jobs ≡ true
    → any (is_root p) (flip_parent parent now b).0.jobs ≡ true
unfolding update
flip_keeps_root p parent now b h =
    any-rewrite _ (unlocked waiting_children now) p b.jobs (λ _. refl) (λ _. refl) ∙ h

pub spawn_write-IsBrain :
    (id : ℕ) (parent : Job) (specs : List ChildSpec) (ps : List Bytes) (now : ℕ) (b : Brain)
    (r : Brain × List ℕ)
    → select_id id b ≡ some parent
    → parent.parent_id ≡ none
    → spawn_write parent specs ps now b ≡ some r
    → IsBrain b
    → IsBrain r.0
spawn_write-IsBrain id parent specs ps now b r e root w v =
    subst (λ (t : Brain × List ℕ). IsBrain t.0) (spawn_write_lem parent specs ps now b r w)
      (insert_children-IsBrain parent specs ps now _ (root_depth id b parent v e root)
        (flip_keeps_root parent.id parent.id now b (root_of_select id b parent e root))
        (unlocked-update-IsBrain _ waiting_children now b refl v))

pub spawn_children-IsBrain :
    (json : Json) (id : ℕ) (specs : List ChildSpec) (now : ℕ) (b : Brain)
    → IsBrain b
    → IsBrain (spawn_children json id specs now b).0
spawn_children-IsBrain json id specs now b v =
    spawn_children_cases (λ r. IsBrain r.0) json id specs now b (λ _ _ _. v)
      λ parent ps r e root c w _ _. spawn_write-IsBrain id parent specs ps now b r e root w v

pub try_begin_aggregation-IsBrain :
    (id : ℕ) (b : Brain) → IsBrain b → IsBrain (try_begin_aggregation id b).0
unfolding try_begin_aggregation
try_begin_aggregation-IsBrain id b v = elim (Bool-cases (id == 0)) [
  | inl bad ↦ rw bad v
  | inr good ↦ rw good (elim (Bool-cases (any (λ p. p == id) b.fences)) [
    | inl old ↦ rw old v
    | inr new ↦ rw new (record { ordered = v.ordered; locked = v.locked; placed = v.placed })
  ])
]

pub aggregate_write-IsBrain :
    (json : Json) (parent : ℕ) (text : Bytes) (now : ℕ) (b : Brain)
    → IsBrain b
    → IsBrain (aggregate_write json parent text now b).0
unfolding aggregate_write
aggregate_write-IsBrain json parent text now b v =
    update-IsBrain _ _ _ (record { ids = λ _. refl; parents = λ _. refl; depths = λ _. refl })
      (λ _. refl) (try_begin_aggregation-IsBrain parent b v)

pub cancel_family-IsBrain :
    (id now : ℕ) (b : Brain) → IsBrain b → IsBrain (cancel_family id now b).0
unfolding cancel_family
cancel_family-IsBrain id now b v =
    unlocked-update-IsBrain _ _ now _ refl (unlocked-update-IsBrain _ _ now b refl v)

pub cancel_job_tree-IsBrain :
    (id now : ℕ) (b : Brain) → IsBrain b → IsBrain (cancel_job_tree id now b).0
unfolding cancel_job_tree
cancel_job_tree-IsBrain id now b v =
    ground (arith, v, cancel_job-IsBrain id now b v, cancel_family-IsBrain id now b v)

pub retry_job_hierarchy-IsBrain :
    (id now : ℕ) (b : Brain) → IsBrain b → IsBrain (retry_job_hierarchy id now b).0
unfolding retry_job_hierarchy
retry_job_hierarchy-IsBrain id now b v = ground (arith, v, retry_job-IsBrain id now b v)
