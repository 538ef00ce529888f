-- ===== src/Embed/Claimed.antt =====
-- A claim that nobody takes away: the transactions of the worker find it and keep it.
use Prim.Native.String.{String}
use qbrain.Prelude.{
  ℕ, suc, ◌+◌, ◌<◌, ◌≡◌, refl, ◌∙◌, ◌&&◌, ◌==◌, Bool, true, Option, none, some, List, Bytes, count,
  find?, codes, text_eq, arith,
}
use qbrain.Jobs.Table.{active, completed, Job, rewrite, update, select_id}
use qbrain.Jobs.Rows.{Ascending, Ascending-rewrite, find-rewrite, find_id}
use qbrain.Jobs.ById.{count_by_id}
use qbrain.Embed.Tables.{World, returns}
use qbrain.Embed.Fence.{
  has_claim, is_held, is_held_embed, renewed, recorded, fence, record_progress, lease_seconds,
}
use qbrain.Embed.Steps.{rewritten}

-- The row of the job, active under its claim before a time.
pub record IsLive (job : Job) (until : ℕ) (js : List Job) : Type 0 where
  pub low : ℕ
  pub high : ℕ
  pub ascending : Ascending low high js
  pub row : Job
  pub found : find? (λ k. k.id == job.id) js ≡ some row
  pub held : (now : ℕ) → now < until → is_held_embed job now row ≡ true

held_before :
    (job : Job) (now now' : ℕ) (j : Job)
    → is_held_embed job now j ≡ true
    → now' < suc now
    → is_held_embed job now' j ≡ true
held_before job now now' j h before = ground arith

pub first-IsLive :
    (job : Job) (now low high : ℕ) (js : List Job) (row : Job)
    → Ascending low high js
    → find? (λ k. k.id == job.id) js ≡ some row
    → is_held_embed job now row ≡ true
    → IsLive job (suc now) js
first-IsLive job now low high js row ascending found held = record {
  low = low;
  high = high;
  ascending = ascending;
  row = row;
  found = found;
  held = λ now' before. held_before job now now' row held before;
}

abbrev of_job : Job → (Job → Bool) → Job → Bool
of_job job q k = k.id == job.id && q k

module _ (job : Job) (until : ℕ) (q : Job → Bool) (set : Job → Job) (js : List Job)
    (live : IsLive job until js) (hit : q live.row ≡ true)
    (ids : (k : Job) → (set k).id ≡ k.id) where
  -- An UPDATE that selects the row of the job selects nothing else.
  count_one : count (of_job job q) js ≡ 1
  count_one =
      count_by_id q job.id live.low live.high js live.row live.ascending live.found ∙ rw hit refl

  found_set : find? (λ k. k.id == job.id) (rewrite (of_job job q) set js) ≡ some (set live.row)
  found_set =
      let id = find_id job.id js live.row live.found in
      let sel : of_job job q live.row ≡ true = ground arith in
      find-rewrite (of_job job q) set job.id js live.row ids live.found ∙ rw sel refl

  rewrite-IsLive :
      (until' : ℕ)
      → ((now : ℕ) → now < until' → is_held_embed job now (set live.row) ≡ true)
      → IsLive job until' (rewrite (of_job job q) set js)
  rewrite-IsLive until' next = record {
    low = live.low;
    high = live.high;
    ascending = Ascending-rewrite (of_job job q) set live.low live.high js ids live.ascending;
    row = set live.row;
    found = found_set;
    held = next;
  }

held-renewed :
    (job : Job) (now now' : ℕ) (j : Job)
    → is_held_embed job now j ≡ true
    → now' < now + lease_seconds
    → is_held_embed job now' (renewed now j) ≡ true
held-renewed job now now' j h later = ground arith

held-recorded :
    (job : Job) (now : ℕ) (p : Bytes) (e : Option String) (j : Job) (now' : ℕ)
    → is_held_embed job now j ≡ true
    → is_held_embed job now (recorded active p e now' j) ≡ true
held-recorded job now p e j now' h = ground arith

module _ (job : Job) (until now : ℕ) (w : World) (before : now < until) where
  pub fence-IsLive :
      IsLive job until w.brain.jobs
      → (fence job now w ≡ returns (rewritten (is_held_embed job now) (renewed now) w))
        × IsLive job
            (now + lease_seconds)
            (rewrite (is_held_embed job now) (renewed now) w.brain.jobs)
  unfolding fence update
  fence-IsLive live =
      let q = λ (k : Job). text_eq k.type (codes "embed") && has_claim job now k in
      let hit : q live.row ≡ true = ground (arith, live.held now before) in
      let one = count_one job until q (renewed now) w.brain.jobs live hit (λ k. refl) in
      (
        rw one refl,
        rewrite-IsLive job until q (renewed now) w.brain.jobs live hit (λ k. refl)
            (now + lease_seconds)
            (λ now' later. held-renewed job now now' live.row (live.held now before) later),
      )

  -- The record of a batch keeps the claim.
  pub record_progress-IsLive :
      (p : Bytes) (e : Option String)
      → IsLive job until w.brain.jobs
      → let set = recorded active p e now in
        (record_progress job active p e now w ≡ returns (rewritten (is_held job now) set w))
        × IsLive job until (rewrite (is_held job now) set w.brain.jobs)
  unfolding record_progress update
  record_progress-IsLive p e live =
      let q = λ (k : Job). has_claim job now k in
      let set = recorded active p e now in
      let hit : q live.row ≡ true = ground (arith, live.held now before) in
      let one = count_one job until q set w.brain.jobs live hit (λ k. refl) in
      (
        rw one refl,
        rewrite-IsLive job until q set w.brain.jobs live hit (λ k. refl) until
            (λ now' later. held-recorded job now' p e live.row now (live.held now' later)),
      )

  -- The record of the end completes the job.
  pub record_progress-completed :
      (p : Bytes)
      → IsLive job until w.brain.jobs
      → let set = recorded completed p none now in
        let w' = rewritten (is_held job now) set w in
        (record_progress job completed p none now w ≡ returns w')
        × ((row : Job) × (select_id job.id w'.brain ≡ some row) × (row.status ≡ completed))
  unfolding record_progress update select_id
  record_progress-completed p live =
      let q = λ (k : Job). has_claim job now k in
      let set = recorded completed p none now in
      let hit : q live.row ≡ true = ground (arith, live.held now before) in
      let one = count_one job until q set w.brain.jobs live hit (λ k. refl) in
      (
        rw one refl,
        (set live.row, found_set job until q set w.brain.jobs live hit (λ k. refl), refl),
      )
