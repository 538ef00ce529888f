-- ===== src/Jobs/Cases.antt =====
-- How `spawn_children` and `aggregate_if_ready` end: by leaving the tables alone, or by their one
-- transaction.
use qbrain.Prelude.{
  ℕ, ◌≡◌, ◌≢◌, [], ◌⊎◌, inl, inr, refl, true, false, none, some, List, length, ltb, ◌==◌, is_empty,
  Bytes, arith, ◌&&◌, Bool-cases, Option-cases,
}
use qbrain.Jobs.Table.{
  Job, Brain, select_id, waiting_children, update, insert, failed_or_completed, is_waiting,
  is_completed, is_waiting_children,
}
use qbrain.Jobs.Text.{Json}
use qbrain.Jobs.Queue.{new_row, cancel_job, retry_job, unlocked, success}
use qbrain.Jobs.Replay.{replay_job_checked, insert_replay}
use qbrain.Jobs.Tree.{
  insert_children, ChildSpec, Checked, SpawnChildrenResult, AggregateResult, rejected, payloads,
  check_specs, spawn_write, spawn_children, count_children, compute_aggregate_json, aggregate_write,
  aggregate_if_ready, brain_at, job_max_child_fanout,
}
use qbrain.Jobs.Hierarchy.{cancel_family, cancel_job_tree, retry_job_hierarchy}

Checked-cases :
    (c : Checked) → ((reason : _) × (c ≡ rejected reason)) ⊎ ((ps : List Bytes) × (c ≡ payloads ps))
Checked-cases (rejected reason) = inl (reason, refl)
Checked-cases (payloads ps) = inr (ps, refl)

pub spawn_children_cases {ℓ} :
    (P : Brain × SpawnChildrenResult → Type ℓ) (json : Json) (id : ℕ) (specs : List ChildSpec)
    (now : ℕ) (b : Brain)
    → ((r : SpawnChildrenResult) → r.status ≢ success → r.child_ids ≡ [] → P (b, r))
    → ((parent : Job) (ps : List Bytes) (r : Brain × List ℕ)
        → select_id id b ≡ some parent
        → parent.parent_id ≡ none
        → check_specs json specs ≡ payloads ps
        → spawn_write parent specs ps now b ≡ some r
        → (is_empty specs ≡ false)
        → (ltb job_max_child_fanout (length specs) ≡ false)
        → P (r.0, record { status = success; parent_id = id; reason = ""; child_ids = r.1 }))
    → P (spawn_children json id specs now b)
unfolding spawn_children
spawn_children_cases P json id specs now b same written = elim (Bool-cases (id == 0)) [
  | inl bad ↦ rw bad (same _ (λ e. cc) refl)
  | inr good ↦ rw good (elim (Bool-cases (is_empty specs)) [
    | inl no_specs ↦ rw no_specs (same _ (λ e. cc) refl)
    | inr some_specs ↦ rw some_specs (elim (Bool-cases (ltb job_max_child_fanout (length specs))) [
      | inl many ↦ rw many (same _ (λ e. cc) refl)
      | inr few ↦ rw few (elim (Checked-cases (check_specs json specs)) [
        | inl (reason, c) ↦ rw c (same _ (λ e. cc) refl)
        | inr (ps, c) ↦ rw c (elim (Option-cases (select_id id b)) [
          | inl e ↦ rw e (same _ (λ e. cc) refl)
          | inr (parent, e) ↦ rw e (elim (Option-cases parent.parent_id) [
            | inl root ↦ rw root (elim (Option-cases (spawn_write parent specs ps now b)) [
              | inl w ↦ rw w (same _ (λ e. cc) refl)
              | inr (r, w) ↦ rw w (written parent ps r e root c w some_specs few)
            ])
            | inr (grandparent, child) ↦ rw child (same _ (λ e. cc) refl)
          ])
        ])
      ])
    ])
  ])
]

pub aggregate_if_ready_cases {ℓ} :
    (P : Brain × AggregateResult → Type ℓ) (json : Json) (id now : ℕ) (others : ℕ → Brain → Brain)
    (b : Brain)
    → ((i : ℕ) (r : AggregateResult) → r.aggregated ≡ false → P (brain_at others i b, r))
    → ((parent : Job) (text : Bytes)
        → select_id id b ≡ some parent
        → is_waiting_children parent.status ≡ true
        → compute_aggregate_json json id
            (brain_at others 2 b)
            (brain_at others 3 b)
            (brain_at others 4 b)
          ≡ some text
        → P (
          (aggregate_write json id text now (brain_at others 5 b)).0,
          record {
            status = success;
            reason = "";
            ready = true;
            aggregated = (aggregate_write json id text now (brain_at others 5 b)).1;
            aggregate_json = text;
          },
        ))
    → P (aggregate_if_ready json id now others b)
unfolding aggregate_if_ready
aggregate_if_ready_cases P json id now others b same written = elim (Bool-cases (id == 0)) [
  | inl bad ↦ rw bad (same 0 _ refl)
  | inr good ↦ rw good (elim (Option-cases (select_id id b)) [
    | inl e ↦ rw e (same 0 _ refl)
    | inr (parent, e) ↦ rw e (elim (Bool-cases (count_children id (brain_at others 1 b) == 0)) [
      | inl leaf ↦ rw leaf (same 1 _ refl)
      | inr family ↦ rw family (elim (Bool-cases (is_completed parent.status)) [
        | inl done ↦ rw done (same 2 _ refl)
        | inr going ↦ rw going (elim (Bool-cases (is_waiting_children parent.status)) [
          | inl waits ↦
              rw waits
                (elim (Option-cases (
                  compute_aggregate_json json id (brain_at others 2 b) (brain_at others 3 b)
                    (brain_at others 4 b))) [
                      | inl c ↦ rw c (same 4 _ refl)
                      | inr (text, c) ↦ rw c (written parent text e waits c)
                    ])
          | inr other ↦ rw other (same 1 _ refl)
        ])
      ])
    ])
  ])
]

pub replay_job_checked_cases {ℓ} :
    (P : Brain → Type ℓ) (id now : ℕ) (b : Brain)
    → P b
    → ((row : ℕ → Job) → P (insert row b).0)
    → P (replay_job_checked id now b).0
unfolding replay_job_checked insert_replay
replay_job_checked_cases P id now b same inserted = elim (Bool-cases (id == 0)) [
  | inl bad ↦ rw bad same
  | inr good ↦ rw good (elim (Option-cases (select_id id b)) [
    | inl e ↦ rw e same
    | inr (j, e) ↦ rw e (elim (Bool-cases (failed_or_completed j.status)) [
      | inl ended ↦
          rw (ended, e, ended) (inserted (new_row j.queue j.type j.payload_json j.priority now))
      | inr open_job ↦ rw open_job same
    ])
  ])
]

pub cancel_job_tree_cases {ℓ} :
    (P : Brain → Type ℓ) (id now : ℕ) (b : Brain)
    → P b
    → P (cancel_job id now b).0
    → P (cancel_family id now b).0
    → P (cancel_job_tree id now b).0
unfolding cancel_job_tree
cancel_job_tree_cases P id now b same leaf family = elim (Bool-cases (id == 0)) [
  | inl bad ↦ rw bad same
  | inr good ↦ rw good (elim (Option-cases (select_id id b)) [
    | inl e ↦ rw e same
    | inr (j, e) ↦ rw e (elim (Bool-cases (count_children id b == 0)) [
      | inl alone ↦ rw alone leaf
      | inr parent ↦ rw parent family
    ])
  ])
]

pub retry_job_hierarchy_cases {ℓ} :
    (P : Brain → Type ℓ) (id now : ℕ) (b : Brain)
    → P b
    → P (retry_job id now b).0
    → P (retry_job_hierarchy id now b).0
unfolding retry_job_hierarchy
retry_job_hierarchy_cases P id now b same leaf = elim (Bool-cases (id == 0)) [
  | inl bad ↦ rw bad same
  | inr good ↦ rw good (elim (Option-cases (select_id id b)) [
    | inl e ↦ rw e same
    | inr (j, e) ↦ rw e (elim (Bool-cases (ltb 0 (count_children id b))) [
      | inl parent ↦ rw parent same
      | inr alone ↦ rw alone leaf
    ])
  ])
]

abbrev pub flip_parent : ℕ → ℕ → Brain → Brain × ℕ
flip_parent parent now =
    update (λ j. j.id == parent && is_waiting j.status) (unlocked waiting_children now)

-- A transaction that commits has inserted the children behind the flipped parent.
pub spawn_write_lem :
    (parent : Job) (specs : List ChildSpec) (ps : List Bytes) (now : ℕ) (b : Brain)
    (r : Brain × List ℕ)
    → spawn_write parent specs ps now b ≡ some r
    → insert_children parent specs ps now (flip_parent parent.id now b).0 ≡ r
unfolding spawn_write
spawn_write_lem parent specs ps now b r w = ground arith
