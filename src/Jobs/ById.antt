-- ===== src/Jobs/ById.antt =====
-- UPDATE … WHERE id=? AND …, on a table whose ids are distinct.
use qbrain.Prelude.{
  ℕ, ◌≤◌, ◌≡◌, ◌≢◌, refl, ap, ◌∙◌, Bool, true, ◌&&◌, some, List, [], ◌∷◌, ◌==◌, if◌then◌else◌,
  count, find?, arith, Bool-cases, inl, inr,
}
use qbrain.Jobs.Table.{Job, Brain, rewrite, update, select_id}
use qbrain.Jobs.Rows.{Ascending, find_id}
use qbrain.Jobs.Invariant.{IsBrain}
use qbrain.Jobs.Queue.{changed}
use qbrain.Jobs.Completed.{select-update}

count_above :
    (q : Job → Bool) (id low high : ℕ) (js : List Job)
    → Ascending low high js
    → id ≤ low
    → count (λ j. j.id == id && q j) js ≡ 0
count_above q id low high [] h le = refl
count_above q id low high (j ∷ js) (h, hs) le = ground (arith, count_above q id j.id high js hs)

pub count_by_id :
    (q : Job → Bool) (id low high : ℕ) (js : List Job) (j : Job)
    → Ascending low high js
    → find? (λ k. k.id == id) js ≡ some j
    → count (λ k. k.id == id && q k) js ≡ (if q j then 1 else 0)
count_by_id q id low high [] j h e = absurd (cc)
count_by_id q id low high (k ∷ js) j (h, hs) e = elim (Bool-cases (k.id == id)) [
  | inl hit ↦
      let e' : k ≡ j = ground arith in rw (← e') (ground (arith, count_above q id k.id high js hs))
  | inr miss ↦ ground (arith, count_by_id q id k.id high js j hs)
]

find_other :
    (selects : Job → Bool) (set : Job → Job) (id k : ℕ) (js : List Job)
    → ((j : Job) → (set j).id ≡ j.id)
    → ((j : Job) → selects j ≡ true → j.id ≡ id)
    → k ≢ id
    → find? (λ j. j.id == k) (rewrite selects set js) ≡ find? (λ j. j.id == k) js
unfolding rewrite
find_other selects set id k [] keep by other = refl
find_other selects set id k (j ∷ js) keep by other =
    ground (arith, keep j, by j, find_other selects set id k js keep by other)

-- What such an UPDATE does: it counts and writes the one row, if the row passes, and no other row.
abbrev pub UpdatesOne : (Job → Bool) → (Job → Job) → ℕ → Job → Brain → Brain × Bool → Type 0
UpdatesOne q set id j b (b', done) =
    (done ≡ q j)
    × (select_id id b' ≡ some (if q j then set j else j))
    × ((k : ℕ) → k ≢ id → select_id k b' ≡ select_id k b)

module _ (q : Job → Bool) (set : Job → Job) (id : ℕ) (j : Job) (b : Brain)
    (keep : (k : Job) → (set k).id ≡ k.id) (v : IsBrain b) (e : select_id id b ≡ some j) where
  by_id-changes : (update (λ k. k.id == id && q k) set b).1 ≡ (if q j then 1 else 0)
  unfolding update select_id
  by_id-changes = count_by_id q id 0 b.last_job b.jobs j v.ordered e

  by_id-found : (j.id == id && q j) ≡ q j
  unfolding select_id
  by_id-found = ground (arith, find_id id b.jobs j e)

  by_id-other :
      (k : ℕ) → k ≢ id → select_id k (update (λ i. i.id == id && q i) set b).0 ≡ select_id k b
  unfolding update select_id
  by_id-other k = find_other (λ i. i.id == id && q i) set id k b.jobs keep (λ i h. ground arith)

  pub update-UpdatesOne : UpdatesOne q set id j b (changed (update (λ k. k.id == id && q k) set b))
  update-UpdatesOne = (
    rw by_id-changes (ground arith),
    select-update (λ k. k.id == id && q k) set id j b keep e
        ∙ ap (λ t. some (if t then set j else j)) by_id-found,
    by_id-other,
  )
