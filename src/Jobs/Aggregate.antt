-- ===== src/Jobs/Aggregate.antt =====
-- When a parent's children are aggregated, and that it happens once.
use qbrain.Prelude.{
  ℕ, zero, suc, ◌≡◌, ◌≢◌, refl, ap, ◌∙◌, Bool, true, false, ◌&&◌, none, some, List, [], ◌∷◌, ◌==◌,
  if◌then◌else◌, Bytes, Bool-cases, arith, inl, inr, count, find?, sym, Option-cases,
}
use qbrain.Jobs.Table.{
  Status, active, paused, waiting, completed, cancelled, dead, failed, waiting_children, Job, Brain,
  select_id, update, is_waiting_children,
}
use qbrain.Jobs.Text.{Json}
use qbrain.Jobs.Queue.{unlocked}
use qbrain.Jobs.Tree.{
  aggregate_write, aggregate_if_ready, AggregateResult, try_begin_aggregation, brain_at,
}
use qbrain.Jobs.Invariant.{IsBrain}
use qbrain.Jobs.Preserved.Tree.{try_begin_aggregation-IsBrain}
use qbrain.Jobs.Completed.{run_keeps_completed}
use qbrain.Jobs.ById.{UpdatesOne, update-UpdatesOne}
use qbrain.Jobs.Cases.{aggregate_if_ready_cases}
use qbrain.Jobs.Calls.{Call, run}
use qbrain.Jobs.History.{run_keeps-IsBrain}
use qbrain.Jobs.Ended.{ChildrenEnded, compute_aggregate_json-ChildrenEnded}

abbrev pub aggregated_row : Bytes → ℕ → Job → Job
aggregated_row text now j = record (unlocked completed now j) {
  result_json = some text;
  error_text = none;
}

fence_jobs : (id : ℕ) (b : Brain) → (try_begin_aggregation id b).0.jobs ≡ b.jobs
unfolding try_begin_aggregation
fence_jobs id b = ground arith

fence_select : (id k : ℕ) (b : Brain) → select_id k (try_begin_aggregation id b).0 ≡ select_id k b
unfolding select_id
fence_select id k b = ap (find? (λ (i : Job). i.id == k)) (fence_jobs id b)

aggregate_write-UpdatesOne :
    (json : Json) (id : ℕ) (text : Bytes) (now : ℕ) (b : Brain) (j : Job)
    → IsBrain b
    → select_id id b ≡ some j
    → UpdatesOne
        (λ k. is_waiting_children k.status)
        (aggregated_row text now)
        id
        j
        b
        (aggregate_write json id text now b)
unfolding aggregate_write
aggregate_write-UpdatesOne json id text now b j v e =
    let b' = (try_begin_aggregation id b).0 in
    let effect =
      update-UpdatesOne (λ k. is_waiting_children k.status) (aggregated_row text now) id j b'
        (λ _. refl) (try_begin_aggregation-IsBrain id b v) (fence_select id id b ∙ e) in
    (effect.0, effect.1, λ k other. effect.2 k other ∙ fence_select id k b)

-- What an aggregation that reports its success did: `grouped` is what its statement over the groups
-- of the children found, and `before` what its transaction found.
abbrev pub Aggregates : ℕ → ℕ → (grouped before : Brain) → Brain × AggregateResult → Type 0
Aggregates id now grouped before (b', r) =
    (parent : Job) × (select_id id before ≡ some parent)
    × (parent.status ≡ waiting_children)
    × ChildrenEnded id grouped
    × (select_id id b' ≡ some (aggregated_row r.aggregate_json now parent))
    × ((k : ℕ) → k ≢ id → select_id k b' ≡ select_id k before)

waiting_children_lem : (s : Status) → is_waiting_children s ≡ true → s ≡ waiting_children
waiting_children_lem waiting_children h = refl
waiting_children_lem active h = absurd (cc)
waiting_children_lem paused h = absurd (cc)
waiting_children_lem waiting h = absurd (cc)
waiting_children_lem completed h = absurd (cc)
waiting_children_lem failed h = absurd (cc)
waiting_children_lem cancelled h = absurd (cc)
waiting_children_lem dead h = absurd (cc)

-- An UPDATE by an id that no row has writes nothing.
count_absent :
    (q : Job → Bool) (id : ℕ) (js : List Job)
    → find? (λ k. k.id == id) js ≡ none
    → count (λ k. k.id == id && q k) js ≡ 0
count_absent q id [] e = refl
count_absent q id (j ∷ js) e = elim (Bool-cases (j.id == id)) [
  | inl hit ↦ absurd (ground arith)
  | inr miss ↦ ground (arith, count_absent q id js)
]

aggregate_write_absent :
    (json : Json) (id : ℕ) (text : Bytes) (now : ℕ) (b : Brain)
    → select_id id b ≡ none
    → (aggregate_write json id text now b).1 ≡ false
unfolding aggregate_write update select_id
aggregate_write_absent json id text now b e =
    let absent =
      count_absent (λ k. is_waiting_children k.status) id (try_begin_aggregation id b).0.jobs
        (fence_select id id b ∙ e) in
    rw absent refl

-- The transaction of an aggregation that reports it has found the parent waiting.
aggregate_write-found :
    (json : Json) (id : ℕ) (text : Bytes) (now : ℕ) (b : Brain)
    → IsBrain b
    → (aggregate_write json id text now b).1 ≡ true
    → (parent : Job) × (select_id id b ≡ some parent) × (is_waiting_children parent.status ≡ true)
aggregate_write-found json id text now b v done = elim (Option-cases (select_id id b)) [
  | inl e ↦ absurd (let never = aggregate_write_absent json id text now b e in cc)
  | inr (parent, e) ↦
      (parent, e, sym (aggregate_write-UpdatesOne json id text now b parent v e).0 ∙ done)
]

-- What others write between the statements, as calls.
abbrev pub calls_between : Json → (ℕ → List (ℕ × Call)) → ℕ → Brain → Brain
calls_between json between i b = run json (between i) b

brain_at-IsBrain :
    (json : Json) (between : ℕ → List (ℕ × Call)) (i : ℕ) (b : Brain)
    → IsBrain b
    → IsBrain (brain_at (calls_between json between) i b)
brain_at-IsBrain json between zero b v = v
brain_at-IsBrain json between (suc i) b v =
    run_keeps-IsBrain json (between i) _ (brain_at-IsBrain json between i b v)

-- When an aggregation that begins on a well-formed table reports that it aggregated, whatever calls
-- others make between its statements: its statement over the groups found that every child had
-- ended. Its transaction found the parent waiting for its children; the parent is now completed with
-- the JSON that the call returns, and no other row changed in the transaction.
pub aggregate_if_ready-Aggregates :
    (json : Json) (id now : ℕ) (between : ℕ → List (ℕ × Call)) (b : Brain)
    → IsBrain b
    → (aggregate_if_ready json id now (calls_between json between) b).1.aggregated ≡ true
    → Aggregates id now
        (brain_at (calls_between json between) 3 b)
        (brain_at (calls_between json between) 5 b)
        (aggregate_if_ready json id now (calls_between json between) b)
aggregate_if_ready-Aggregates json id now between b v =
    let others = calls_between json between in
    let before = brain_at others 5 b in
    aggregate_if_ready_cases
      (λ r. r.1.aggregated ≡ true → Aggregates id now (brain_at others 3 b) before r) json id now
      others b (λ i r no done. absurd (cc))
      λ _ text _ _ c done.
        let ok = brain_at-IsBrain json between 5 b v in
        let (parent, e, waits) = aggregate_write-found json id text now before ok done in
        let effect = aggregate_write-UpdatesOne json id text now before parent ok e in
        (
          parent,
          e,
          waiting_children_lem parent.status waits,
          compute_aggregate_json-ChildrenEnded json id text _ _ _ c,
          effect.1 ∙ ap (λ t. some (if t then aggregated_row text now parent else parent)) waits,
          effect.2,
        )

no_second :
    (json : Json) (id now : ℕ) (others : ℕ → Brain → Brain) (b : Brain) (j : Job)
    → select_id id b ≡ some j
    → j.status ≡ completed
    → (aggregate_if_ready json id now others b).1.aggregated ≡ false
no_second json id now others b j e done =
    aggregate_if_ready_cases (λ r. r.1.aggregated ≡ false) json id now others b (λ i r no. no)
      λ parent text e' waits _. absurd (ground arith)

-- A parent's children are aggregated at most once: after an aggregation that reported it, whatever
-- calls follow, no aggregation of the parent reports it again, whatever others do between the
-- statements of the two.
pub aggregate_if_ready_once :
    (json : Json) (id now now' : ℕ) (between : ℕ → List (ℕ × Call)) (others : ℕ → Brain → Brain)
    (b : Brain) (cs : List (ℕ × Call))
    → IsBrain b
    → (aggregate_if_ready json id now (calls_between json between) b).1.aggregated ≡ true
    → (aggregate_if_ready json id now' others (
        run json cs (aggregate_if_ready json id now (calls_between json between) b).0)).1.aggregated
      ≡ false
aggregate_if_ready_once json id now now' between others b cs v done =
    let (parent, _, _, _, found, _) = aggregate_if_ready-Aggregates json id now between b v done in
    let r = aggregate_if_ready json id now (calls_between json between) b in
    let row = aggregated_row r.1.aggregate_json now parent in
    no_second json id now' others (run json cs r.0) row
      (run_keeps_completed json cs id row r.0 refl found) refl
