-- ===== src/Jobs/Rows.antt =====
-- What an UPDATE and an INSERT do to the rows of `jobs`.
use mathlib.Core.Path.{subst}
use qbrain.Prelude.{
  ℕ, suc, ◌≤◌, ◌<◌, ◌≡◌, inl, inr, refl, Bool, true, false, ◌&&◌, none, some, List, [], ◌∷◌, ◌++◌,
  count, find?, any, ◌==◌, if◌then◌else◌, All, arith, Bool-cases,
}
use qbrain.Jobs.Table.{Job, rewrite}

module _ (selects : Job → Bool) (set : Job → Job) where
  pub rewrite-All {ℓ} :
      (P : Job → Type ℓ) (js : List Job)
      → ((j : Job) → selects j ≡ true → P j → P (set j))
      → All P js
      → All P (rewrite selects set js)
  unfolding rewrite
  rewrite-All P [] keep h = tt
  rewrite-All P (j ∷ js) keep (h, hs) = (one (selects j) refl, rewrite-All P js keep hs)
    where
      one : (b : Bool) → selects j ≡ b → P (if b then set j else j)
      one true e = keep j e h
      one false e = h

  -- The row with an id, if the UPDATE keeps ids.
  pub find-rewrite :
      (id : ℕ) (js : List Job) (j : Job)
      → ((k : Job) → (set k).id ≡ k.id)
      → find? (λ k. k.id == id) js ≡ some j
      → find? (λ k. k.id == id) (rewrite selects set js) ≡ some (if selects j then set j else j)
  unfolding rewrite
  find-rewrite id [] j keep e = absurd (cc)
  find-rewrite id (k ∷ js) j keep e = ground (arith, keep k, find-rewrite id js j keep)

  -- After the UPDATE a row that still passes the test was written by it.
  pub count-rewrite-zero :
      (js : List Job)
      → ((j : Job) → selects (set j) ≡ false)
      → count selects (rewrite selects set js) ≡ 0
  unfolding rewrite
  count-rewrite-zero [] gone = refl
  count-rewrite-zero (j ∷ js) gone = ground (arith, gone j, count-rewrite-zero js gone)

pub find-append :
    (id : ℕ) (js ks : List Job) (j : Job)
    → find? (λ k. k.id == id) js ≡ some j
    → find? (λ k. k.id == id) (js ++ ks) ≡ some j
find-append id [] ks j e = absurd (cc)
find-append id (k ∷ js) ks j e = ground (arith, find-append id js ks j)

pub find_id : (id : ℕ) (js : List Job) (j : Job) → find? (λ k. k.id == id) js ≡ some j → j.id ≡ id
find_id id [] j e = absurd (cc)
find_id id (k ∷ js) j e = ground (arith, find_id id js j)

pub find-All {ℓ} :
    (P : Job → Type ℓ) (id : ℕ) (js : List Job) (j : Job)
    → All P js
    → find? (λ k. k.id == id) js ≡ some j
    → P j
find-All P id [] j h e = absurd (cc)
find-All P id (k ∷ js) j (h, hs) e = elim (Bool-cases (k.id == id)) [
  | inl hit ↦ let e' : k ≡ j = ground arith in subst P e' h
  | inr miss ↦ find-All P id js j hs (ground arith)
]

-- The ids ascend strictly, above one number and up to another.
abbrev pub Ascending : ℕ → ℕ → List Job → Type 0
Ascending low high [] = low ≤ high
Ascending low high (j ∷ js) = (low < j.id) × Ascending j.id high js

pub Ascending-le : (low high : ℕ) (js : List Job) → Ascending low high js → low ≤ high
Ascending-le low high [] h = h
Ascending-le low high (j ∷ js) (h, hs) = omega (arith, Ascending-le j.id high js hs)

pub Ascending-rewrite :
    (selects : Job → Bool) (set : Job → Job) (low high : ℕ) (js : List Job)
    → ((k : Job) → (set k).id ≡ k.id)
    → Ascending low high js
    → Ascending low high (rewrite selects set js)
unfolding rewrite
Ascending-rewrite selects set low high [] keep h = h
Ascending-rewrite selects set low high (j ∷ js) keep (h, hs) =
    ground (arith, keep j, Ascending-rewrite selects set j.id high js keep hs)

-- A row with the next id goes to the end.
pub Ascending-snoc :
    (low high : ℕ) (js : List Job) (j : Job)
    → Ascending low high js
    → j.id ≡ suc high
    → Ascending low (suc high) (js ++ j ∷ [])
Ascending-snoc low high [] j h e = omega arith
Ascending-snoc low high (k ∷ js) j (h, hs) e = (h, Ascending-snoc k.id high js j hs e)

-- A row with the given id and no parent.
abbrev pub is_root : ℕ → Job → Bool
is_root p j = j.id == p && elim j.parent_id [ none ↦ true | some _ ↦ false ]

pub any-rewrite :
    (selects : Job → Bool) (set : Job → Job) (p : ℕ) (js : List Job)
    → ((k : Job) → (set k).id ≡ k.id)
    → ((k : Job) → (set k).parent_id ≡ k.parent_id)
    → any (is_root p) (rewrite selects set js) ≡ any (is_root p) js
unfolding rewrite
any-rewrite selects set p [] ids parents = refl
any-rewrite selects set p (j ∷ js) ids parents =
    ground (arith, ids j, parents j, any-rewrite selects set p js ids parents)

pub any-append {ℓ} :
    {A : Type ℓ} (test : A → Bool) (xs ys : List A)
    → any test xs ≡ true
    → any test (xs ++ ys) ≡ true
any-append test [] ys h = absurd (cc)
any-append test (x ∷ xs) ys h = ground (arith, any-append test xs ys)

pub find-root :
    (p : ℕ) (js : List Job) (j : Job)
    → find? (λ k. k.id == p) js ≡ some j
    → j.parent_id ≡ none
    → any (is_root p) js ≡ true
find-root p [] j e root = absurd (cc)
find-root p (k ∷ js) j e root = ground (arith, find-root p js j)
