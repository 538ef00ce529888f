-- ===== src/Embed/Steps.antt =====
-- What a transaction of the worker may change, and that an execution consists of such changes.
use mathlib.Core.Path.{subst}
use qbrain.Prelude.{
  ℕ, suc, ◌≡◌, refl, sym, ap, ◌⊎◌, inl, inr, ◌&&◌, Bool, true, false, Option, List, [], ◌∷◌, Bytes,
  count, any, if◌then◌else◌, Bool-cases, arith, ◌==◌,
}
use Prim.Native.String.{String}
use qbrain.Jobs.Table.{Status, active, completed, Job, rewrite, update, is_active}
use qbrain.Embed.Tables.{World, Chunk, returns, throws, lost_claim, in_page, returns_injective}
use qbrain.Embed.Batch.{unembedded}
use qbrain.Embed.Execute.{Moment}
use qbrain.Embed.Fence.{
  is_held, is_held_embed, one_change, renewed, recorded, fence, record_progress,
}
use qbrain.Prelude.{Pointwise, Pointwise-refl}

-- The columns that the worker does not write are those of the row before.
abbrev pub Continues : Job → Job → Type 0
Continues j j' = j' ≡ record j {
  status = j'.status;
  result_json = j'.result_json;
  error_text = j'.error_text;
  lock_token = j'.lock_token;
  lock_until = j'.lock_until;
  updated_at = j'.updated_at;
}

-- A row of `jobs` is as before, or it was held under the claim and comes to the status.
abbrev pub Touched : Job → ℕ → Status → Job → Job → Type 0
Touched job now s j j' = (j' ≡ j) ⊎ ((is_held job now j ≡ true) × (j'.status ≡ s) × Continues j j')

-- A chunk is as before, or it is one of the page that had no embedding and keeps its text.
abbrev pub Filled : ℕ → Chunk → Chunk → Type 0
Filled page c c' =
    (c' ≡ c)
    ⊎ ((in_page page c && unembedded c ≡ true)
        × (c' ≡ record c { embedding = c'.embedding; dim = c'.dim; model = c'.model }))

-- A transaction of the worker that is committed, from the tables before it to those after it.
pub record Change (job : Job) (now page : ℕ) (s : Status) (w w' : World) : Type 0 where
  pub owned : count (is_held_embed job now) w.brain.jobs ≡ 1
  pub rows : Pointwise (Touched job now s) w.brain.jobs w'.brain.jobs
  pub brain_kept : w'.brain ≡ record w.brain { jobs = w'.brain.jobs }
  pub pages_kept : w'.pages ≡ w.pages
  pub filled : Pointwise (Filled page) w.chunks w'.chunks
  pub embedded : s ≡ completed → any (λ c. in_page page c && unembedded c) w'.chunks ≡ false
  pub chunks_kept : is_active s ≡ false → w'.chunks ≡ w.chunks

-- The tables from the `k`-th transaction on: before each transaction others do what they like, and
-- then the worker makes a change, or none.
pub data Trace (job : Job) (page : ℕ) (at : ℕ → Moment) : ℕ → World → World → Type 0 where
  ended : {k : ℕ} {w : World} → Trace job page at k w w
  passed :
      {k : ℕ} {w w' : World}
      → Trace job page at (suc k) ((at k).others w) w'
      → Trace job page at k w w'
  made :
      {k : ℕ} {w w1 w' : World} (s : Status)
      → Change job (at k).now page s ((at k).others w) w1
      → Trace job page at (suc k) w1 w'
      → Trace job page at k w w'

pub Pointwise-rewrite :
    (R : Job → Job → Type 0) (sel : Job → Bool) (set : Job → Job) (js : List Job)
    → ((j : Job) → R j (if sel j then set j else j))
    → Pointwise R js (rewrite sel set js)
unfolding rewrite
Pointwise-rewrite R sel set [] h = tt
Pointwise-rewrite R sel set (j ∷ js) h = (h j, Pointwise-rewrite R sel set js h)

-- Two UPDATEs, one after the other.
Pointwise-rewrite_twice :
    (R : Job → Job → Type 0) (sel sel' : Job → Bool) (set set' : Job → Job) (js : List Job)
    → ((j : Job) → R j (let k = if sel j then set j else j in if sel' k then set' k else k))
    → Pointwise R js (rewrite sel' set' (rewrite sel set js))
unfolding rewrite
Pointwise-rewrite_twice R sel sel' set set' [] h = tt
Pointwise-rewrite_twice R sel sel' set set' (j ∷ js) h =
    (h j, Pointwise-rewrite_twice R sel sel' set set' js h)

abbrev pub rewritten : (Job → Bool) → (Job → Job) → World → World
rewritten sel set w = record w { brain = record w.brain { jobs = rewrite sel set w.brain.jobs } }

pub one_change-elim :
    (sel : Job → Bool) (set : Job → Job) (w : World) {w' : World}
    → one_change w (update sel set w.brain) ≡ returns w'
    → (count sel w.brain.jobs ≡ 1) × (rewritten sel set w ≡ w')
unfolding update
one_change-elim sel set w {w'} h = elim (Bool-cases (count sel w.brain.jobs == 1)) [
  | inl e ↦ (ground arith, returns_injective (rw e at h))
  | inr e ↦ let no : throws lost_claim ≡ returns w' = rw e at h in absurd (cc)
]

is_held-active : (job : Job) (now : ℕ) (j : Job) → is_held job now j ≡ true → j.status ≡ active
is_held-active job now j h = ground arith

renewed-held :
    (job : Job) (now : ℕ) (j : Job)
    → is_held job now j ≡ true
    → is_held job now (renewed now j) ≡ true
renewed-held job now j h = ground arith

recorded-Continues :
    (s : Status) (p : Bytes) (e : Option String) (now : ℕ) (j : Job)
    → ((recorded s p e now j).status ≡ s) × Continues j (recorded s p e now j)
recorded-Continues s p e now j = elim (Bool-cases (is_active s)) [
  | inl h ↦ rw h (refl, refl)
  | inr h ↦ rw h (refl, refl)
]

-- The two UPDATEs of a transaction on one row.
fenced_row :
    (job : Job) (now : ℕ) (s : Status) (p : Bytes) (e : Option String) (j : Job)
    → Touched job now s j (
        let k = if is_held_embed job now j then renewed now j else j in
        if is_held job now k then recorded s p e now k else k)
fenced_row job now s p e j = elim (Bool-cases (is_held_embed job now j)) [
  | inl h ↦
      let held : is_held job now j ≡ true = ground arith in
      let again = renewed-held job now j held in
      let (to_s, rest) = recorded-Continues s p e now (renewed now j) in
      rw (h, again) (inr (held, to_s, rest))
  | inr h ↦ elim (Bool-cases (is_held job now j)) [
    | inl held ↦
        let (to_s, rest) = recorded-Continues s p e now j in rw (h, held) (inr (refl, to_s, rest))
    | inr free ↦ rw (h, free) (inl refl)
  ]
]

renewed_row :
    (job : Job) (now : ℕ) (j : Job)
    → Touched job now active j (if is_held_embed job now j then renewed now j else j)
renewed_row job now j = elim (Bool-cases (is_held_embed job now j)) [
  | inl h ↦
      let held : is_held job now j ≡ true = ground arith in
      rw h (inr (held, is_held-active job now j held, refl))
  | inr h ↦ rw h (inl refl)
]

pub fence-Change :
    (job : Job) (now page : ℕ) (w : World) {w' : World}
    → fence job now w ≡ returns w'
    → Change job now page active w w'
unfolding fence
fence-Change job now page w h =
    let (one, e) = one_change-elim (is_held_embed job now) (renewed now) w h in
    subst (Change job now page active w) e (record {
      owned = one;
      rows =
          Pointwise-rewrite (Touched job now active) (is_held_embed job now) (renewed now)
            w.brain.jobs (renewed_row job now);
      brain_kept = refl;
      pages_kept = refl;
      filled = Pointwise-refl (Filled page) w.chunks (λ c. inl refl);
      embedded = λ no. cc;
      chunks_kept = λ no. refl;
    })

-- A transaction that renews the claim, changes chunks and records the progress.
pub recorded-Change :
    (job : Job) (now page : ℕ) (s : Status) (p : Bytes) (e : Option String) (w : World)
    (cs : List Chunk) {held w' : World}
    → fence job now w ≡ returns held
    → record_progress job s p e now (record held { chunks = cs }) ≡ returns w'
    → Pointwise (Filled page) w.chunks cs
    → (s ≡ completed → any (λ c. in_page page c && unembedded c) cs ≡ false)
    → (is_active s ≡ false → cs ≡ w.chunks)
    → Change job now page s w w'
unfolding fence record_progress
recorded-Change job now page s p e w cs {held} {w'} h h' fill final keep =
    let (one, e1) = one_change-elim (is_held_embed job now) (renewed now) w h in
    let set = recorded s p e now in
    let w1 = rewritten (is_held_embed job now) (renewed now) w in
    let (one', e2) =
      one_change-elim (is_held job now) set (record w1 { chunks = cs }) {w' = w'}
        (subst
          (λ (v : World).
            one_change (record v { chunks = cs }) (update (is_held job now) set v.brain)
            ≡ returns w')
          (sym e1) h') in
    subst (Change job now page s w) e2 (record {
      owned = one;
      rows =
          Pointwise-rewrite_twice (Touched job now s) (is_held_embed job now) (is_held job now)
            (renewed now) set w.brain.jobs (fenced_row job now s p e);
      brain_kept = refl;
      pages_kept = refl;
      filled = fill;
      embedded = final;
      chunks_kept = keep;
    })

-- The renewal of the claim writes no chunk and no page.
pub fence_keeps_content :
    (job : Job) (now : ℕ) (w : World) {w' : World}
    → fence job now w ≡ returns w'
    → (w'.chunks ≡ w.chunks) × (w'.pages ≡ w.pages)
unfolding fence
fence_keeps_content job now w h =
    let (one, e) = one_change-elim (is_held_embed job now) (renewed now) w h in
    (sym (ap (λ (v : World). v.chunks) e), sym (ap (λ (v : World). v.pages) e))
