-- ===== src/Jobs/Spawn.antt =====
-- What spawning children does to the rows.
use mathlib.Core.Path.{subst}
use qbrain.Prelude.{
  ℕ, suc, ◌+◌, ◌≤◌, ◌≡◌, ◌≢◌, refl, sym, ap, ◌∙◌, false, none, some, List, [], ◌∷◌, ◌++◌,
  append_assoc, append-nil, ◌⊎◌, is_empty, Bytes, Bool-cases, Option-cases, arith, inl, inr, All,
  map, length, find?, Bool, true, ◌&&◌, ◌==◌, if◌then◌else◌,
}
use qbrain.Jobs.Table.{
  Status, waiting, active, paused, waiting_children, completed, failed, cancelled, dead, Job, Brain,
  select_id, insert, update, rewrite, is_waiting,
}
use qbrain.Jobs.Rows.{Ascending, find_id}
use qbrain.Jobs.Invariant.{IsBrain}
use qbrain.Jobs.ById.{count_by_id}
use qbrain.Jobs.Text.{Json, canonical_message_payload}
use qbrain.Jobs.Queue.{success, or_empty_object, unlocked}
use qbrain.Jobs.Tree.{
  ChildSpec, child_row, insert_children, spawn_children, check_specs, payloads, SpawnChildrenResult,
  Checked, rejected, add_payload, spawn_write,
}
use qbrain.Jobs.Cases.{spawn_children_cases, spawn_write_lem, flip_parent}

length_of_some {ℓ} : {A : Type ℓ} (xs : List A) → is_empty xs ≡ false → 1 ≤ length xs
length_of_some [] h = absurd (cc)
length_of_some (x ∷ xs) h = omega arith

-- An accepted list of specifications has one payload for each.
Checked-length : List ChildSpec → Checked → Type 0
Checked-length specs (rejected reason) = Unit
Checked-length specs (payloads ps) = length ps ≡ length specs

check_specs-length :
    (json : Json) (specs : List ChildSpec) → Checked-length specs (check_specs json specs)
unfolding check_specs Checked-length
check_specs-length json [] = refl
check_specs-length json (spec ∷ specs) = elim (Bool-cases (is_empty spec.type)) [
  | inl bad ↦ rw bad tt
  | inr good ↦
      rw good
        (elim (Option-cases (canonical_message_payload json (or_empty_object spec.payload_json))) [
          | inl e ↦ rw e tt
          | inr (p, e) ↦ rw e (more p (check_specs json specs) (check_specs-length json specs))
        ])
]
  where
    more :
        (p : Bytes) (c : Checked)
        → Checked-length specs c
        → Checked-length (spec ∷ specs) (add_payload p c)
    more p (rejected r) h = tt
    more p (payloads ps) h = ap suc h

-- The rows that a transaction adds behind others, one for each specification in order: waiting
-- children of the parent, one level below it.
pub record Adds (parent : Job) (specs : List ChildSpec) (before : List Job) (r : Brain × List ℕ)
    : Type 0 where
  pub rows : List Job
  pub jobs : r.0.jobs ≡ before ++ rows
  pub ids : map (λ (k : Job). k.id) rows ≡ r.1
  pub types : map (λ (k : Job). k.type) rows ≡ map (λ (s : ChildSpec). s.type) specs
  pub children :
      All
        (λ k. (k.parent_id ≡ some parent.id) × (k.depth ≡ parent.depth + 1) × (k.status ≡ waiting))
        rows

insert_children-Adds :
    (parent : Job) (specs : List ChildSpec) (ps : List Bytes) (now : ℕ) (b : Brain)
    → length ps ≡ length specs
    → Adds parent specs b.jobs (insert_children parent specs ps now b)
unfolding insert_children insert
insert_children-Adds parent [] ps now b h = record {
  rows = [];
  jobs = sym (append-nil b.jobs);
  ids = refl;
  types = refl;
  children = tt;
}
insert_children-Adds parent (spec ∷ specs) [] now b h = absurd (omega arith)
insert_children-Adds parent (spec ∷ specs) (p ∷ ps) now b h =
    let row = child_row parent spec p now (suc b.last_job) in
    let rest =
      insert_children-Adds parent specs ps now (insert (child_row parent spec p now) b).0
        (omega arith) in
    record {
      rows = row ∷ rest.rows;
      jobs = rest.jobs ∙ append_assoc b.jobs (row ∷ []) rest.rows;
      ids = ap (◌∷◌ (suc b.last_job)) rest.ids;
      types = ap (◌∷◌ spec.type) rest.types;
      children = ((refl, refl, refl), rest.children);
    }

-- The row with the id waits for its children and has no lock; the others are as they were.
abbrev pub now_waits : ℕ → ℕ → Job → Job
now_waits id now j =
    if j.id == id
    then record j {
      status = waiting_children;
      lock_token = none;
      lock_until = none;
      updated_at = now;
    }
    else j

-- What a spawn that reports success did.
abbrev pub Spawns : ℕ → List ChildSpec → ℕ → Brain → Brain × SpawnChildrenResult → Type 0
Spawns id specs now b (b', r) =
    (parent : Job) × (select_id id b ≡ some parent)
    × (parent.parent_id ≡ none)
    × (parent.status ≡ waiting)
    × (1 ≤ length specs)
    × (length specs ≤ 8)
    × Adds parent specs (map (now_waits id now) b.jobs) (b', r.child_ids)

rewrite_above :
    (q : Job → Bool) (id now low high : ℕ) (js : List Job)
    → Ascending low high js
    → id ≤ low
    → rewrite (λ j. j.id == id && q j) (unlocked waiting_children now) js
      ≡ map (now_waits id now) js
unfolding rewrite
rewrite_above q id now low high [] h le = refl
rewrite_above q id now low high (j ∷ js) (h, hs) le =
    let other : (j.id == id) ≡ false = ground arith in
    rw (other, rewrite_above q id now j.id high js hs (ground (arith))) refl

-- The ids are distinct, so the guarded UPDATE writes the row of the parent and no other.
rewrite_parent :
    (q : Job → Bool) (id now low high : ℕ) (js : List Job) (parent : Job)
    → Ascending low high js
    → find? (λ k. k.id == id) js ≡ some parent
    → q parent ≡ true
    → rewrite (λ j. j.id == id && q j) (unlocked waiting_children now) js
      ≡ map (now_waits id now) js
unfolding rewrite
rewrite_parent q id now low high [] parent h e ok = absurd (cc)
rewrite_parent q id now low high (j ∷ js) parent (h, hs) e ok = elim (Bool-cases (j.id == id)) [
  | inl hit ↦
      let same : j ≡ parent = ground arith in
      let passes : q j ≡ true = ap q same ∙ ok in
      rw (hit, passes, rewrite_above q id now j.id high js hs (ground arith)) refl
  | inr miss ↦
      let rest : find? (λ k. k.id == id) js ≡ some parent = ground arith in
      rw (miss, rewrite_parent q id now j.id high js parent hs rest ok) refl
]

waiting_lem : (s : Status) → is_waiting s ≡ true → s ≡ waiting
waiting_lem waiting h = refl
waiting_lem active h = absurd (cc)
waiting_lem paused h = absurd (cc)
waiting_lem waiting_children h = absurd (cc)
waiting_lem completed h = absurd (cc)
waiting_lem failed h = absurd (cc)
waiting_lem cancelled h = absurd (cc)
waiting_lem dead h = absurd (cc)

-- A transaction that commits has found the parent waiting.
spawn_write-waiting :
    (id : ℕ) (parent : Job) (specs : List ChildSpec) (ps : List Bytes) (now : ℕ) (b : Brain)
    (r : Brain × List ℕ)
    → IsBrain b
    → select_id id b ≡ some parent
    → spawn_write parent specs ps now b ≡ some r
    → is_waiting parent.status ≡ true
unfolding spawn_write update select_id
spawn_write-waiting id parent specs ps now b r v e w =
    let same : parent.id ≡ id = find_id id b.jobs parent e in
    let found : find? (λ k. k.id == parent.id) b.jobs ≡ some parent =
      subst (λ i. find? (λ k. k.id == i) b.jobs ≡ some parent) (sym same) e in
    let one =
      count_by_id (λ k. is_waiting k.status) parent.id 0 b.last_job b.jobs parent v.ordered found in
    elim (Bool-cases (is_waiting parent.status)) [
      | inl waits ↦ waits
      | inr other ↦ absurd (ground (arith, one))
    ]

flip_parent_lem :
    (id : ℕ) (parent : Job) (now : ℕ) (b : Brain)
    → IsBrain b
    → select_id id b ≡ some parent
    → is_waiting parent.status ≡ true
    → (flip_parent parent.id now b).0.jobs ≡ map (now_waits id now) b.jobs
unfolding update select_id
flip_parent_lem id parent now b v e waits =
    rw (find_id id b.jobs parent e) (
      rewrite_parent (λ k. is_waiting k.status) id now 0 b.last_job b.jobs parent v.ordered e waits)

-- A spawn on a well-formed table either is refused, and then changes nothing and names no child; or
-- it succeeds, on a waiting root with one to eight specifications: the root now waits for its
-- children, without a lock, the other rows stay, and behind them stand the new ones, one for each
-- specification in order, as waiting children of the root, under the ids that the call returns.
pub spawn_children-Spawns :
    (json : Json) (id : ℕ) (specs : List ChildSpec) (now : ℕ) (b : Brain)
    → IsBrain b
    → ((spawn_children json id specs now b).1.status ≢ success)
        × ((spawn_children json id specs now b).0 ≡ b)
        × ((spawn_children json id specs now b).1.child_ids ≡ [])
      ⊎ ((spawn_children json id specs now b).1.status ≡ success)
        × Spawns id specs now b (spawn_children json id specs now b)
unfolding Checked-length
spawn_children-Spawns json id specs now b v =
    spawn_children_cases
      (λ r.
        ((r.1.status ≢ success) × (r.0 ≡ b) × (r.1.child_ids ≡ []))
        ⊎ ((r.1.status ≡ success) × Spawns id specs now b r))
      json id specs now b (λ r bad ids. inl (bad, refl, ids))
      λ parent ps r e root c w some_specs few.
        let waits = spawn_write-waiting id parent specs ps now b r v e w in
        let added =
          insert_children-Adds parent specs ps now (flip_parent parent.id now b).0
            (subst (Checked-length specs) c (check_specs-length json specs)) in
        inr (
          refl,
          (
            parent,
            e,
            root,
            waiting_lem parent.status waits,
            length_of_some specs some_specs,
            ground arith,
            subst (λ before. Adds parent specs before r) (flip_parent_lem id parent now b v e waits)
                (subst (Adds parent specs (flip_parent parent.id now b).0.jobs)
                  (spawn_write_lem parent specs ps now b r w) added),
          ),
        )
