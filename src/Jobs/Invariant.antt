-- ===== src/Jobs/Invariant.antt =====
-- What holds of the tables after any sequence of calls.
use qbrain.Prelude.{
  ℕ, suc, ◌≡◌, Bool, true, false, not, ◌&&◌, Option, none, some, List, [], ◌∷◌, ◌++◌, any, ◌==◌,
  if◌then◌else◌, All, All-append, arith, is_empty, Bytes,
}
use qbrain.Jobs.Table.{Job, Brain, is_active, rewrite, update, insert, empty_brain}
use qbrain.Jobs.Rows.{
  rewrite-All, Ascending, Ascending-rewrite, Ascending-snoc, is_root, any-rewrite, any-append,
}

abbrev is_some {ℓ} : {A : Type ℓ} → Option A → Bool
is_some none = false
is_some (some a) = true

abbrev has_text : Option Bytes → Bool
has_text none = false
has_text (some t) = not (is_empty t)

-- An active row has a lock with a token that is not empty; any other row has no lock.
abbrev pub lock_ok : Job → Bool
lock_ok j =
    if is_active j.status
    then has_text j.lock_token && is_some j.lock_until
    else not (is_some j.lock_token) && not (is_some j.lock_until)

-- A root has depth 0; a child has depth 1, and its parent is a root of the table.
abbrev pub place_of : List Job → Option ℕ → ℕ → Bool
place_of js none depth = depth == 0
place_of js (some p) depth = depth == 1 && any (is_root p) js

abbrev pub place_ok : List Job → Job → Bool
place_ok js j = place_of js j.parent_id j.depth

pub record IsBrain (b : Brain) : Type 0 where
  pub ordered : Ascending 0 b.last_job b.jobs
  pub locked : All (λ j. lock_ok j ≡ true) b.jobs
  pub placed : All (λ j. place_ok b.jobs j ≡ true) b.jobs

pub empty_brain-IsBrain : IsBrain empty_brain
empty_brain-IsBrain = record { ordered = omega arith; locked = tt; placed = tt }

All-map {ℓ κ μ} :
    {A : Type ℓ} (P : A → Type κ) (Q : A → Type μ) (xs : List A)
    → ((x : A) → P x → Q x)
    → All P xs
    → All Q xs
All-map P Q [] f h = tt
All-map P Q (x ∷ xs) f (h, hs) = (f x h, All-map P Q xs f hs)

-- What an UPDATE leaves alone.
pub record KeepsPlace (set : Job → Job) : Type 0 where
  pub ids : (j : Job) → (set j).id ≡ j.id
  pub parents : (j : Job) → (set j).parent_id ≡ j.parent_id
  pub depths : (j : Job) → (set j).depth ≡ j.depth

place_of_mono :
    (js ks : List Job) (parent : Option ℕ) (depth : ℕ)
    → ((p : ℕ) → any (is_root p) js ≡ true → any (is_root p) ks ≡ true)
    → place_of js parent depth ≡ true
    → place_of ks parent depth ≡ true
place_of_mono js ks none depth grow h = h
place_of_mono js ks (some p) depth grow h = ground (arith, grow p)

-- Rows keep their places where no root is lost.
placed_mono :
    (js ks rows : List Job)
    → ((p : ℕ) → any (is_root p) js ≡ true → any (is_root p) ks ≡ true)
    → All (λ j. place_ok js j ≡ true) rows
    → All (λ j. place_ok ks j ≡ true) rows
placed_mono js ks rows grow =
    All-map (λ j. place_ok js j ≡ true) (λ j. place_ok ks j ≡ true) rows
      (λ j. place_of_mono js ks j.parent_id j.depth grow)

pub update-IsBrain :
    (selects : Job → Bool) (set : Job → Job) (b : Brain)
    → KeepsPlace set
    → ((j : Job) → lock_ok (set j) ≡ true)
    → IsBrain b
    → IsBrain (update selects set b).0
unfolding update
update-IsBrain selects set b keep locks v = record {
  ordered = Ascending-rewrite selects set 0 b.last_job b.jobs keep.ids v.ordered;
  locked = rewrite-All selects set (λ j. lock_ok j ≡ true) b.jobs (λ j _ _. locks j) v.locked;
  placed =
      rewrite-All selects set (λ j. place_ok (rewrite selects set b.jobs) j ≡ true) b.jobs
        (λ j _ h. rw (keep.parents j, keep.depths j) h)
        (placed_mono b.jobs (rewrite selects set b.jobs) b.jobs
          (λ p h. rw (any-rewrite selects set p b.jobs keep.ids keep.parents) h) v.placed);
}

pub insert-IsBrain :
    (row : ℕ → Job) (b : Brain)
    → ((id : ℕ) → (row id).id ≡ id)
    → ((id : ℕ) → lock_ok (row id) ≡ true)
    → ((id : ℕ) → place_ok b.jobs (row id) ≡ true)
    → IsBrain b
    → IsBrain (insert row b).0
unfolding insert
insert-IsBrain row b ids locks places v = record {
  ordered = Ascending-snoc 0 b.last_job b.jobs new v.ordered (ids (suc b.last_job));
  locked =
      All-append (λ j. lock_ok j ≡ true) b.jobs (new ∷ []) v.locked (locks (suc b.last_job), tt);
  placed =
      placed_mono b.jobs (b.jobs ++ new ∷ []) (b.jobs ++ new ∷ [])
        (λ p. any-append (is_root p) b.jobs (new ∷ []))
        (All-append (λ j. place_ok b.jobs j ≡ true) b.jobs (new ∷ []) v.placed
          (places (suc b.last_job), tt));
}
  where
    new : Job
    new = row (suc b.last_job)
