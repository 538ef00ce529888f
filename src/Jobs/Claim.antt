-- ===== src/Jobs/Claim.antt =====
-- Which job a worker gets: the claimable one that is first by priority and id, and no other worker
-- gets it too.
use qbrain.Prelude.{
  ℕ, ◌≤◌, ◌+◌, ◌<◌, ◌≡◌, ◌≢◌, refl, ap, ◌∙◌, Bool, true, false, Option, none, some, List, [], ◌∷◌,
  ◌==◌, if◌then◌else◌, is_empty, Bytes, arith, Bool-cases, inl, inr, find?, All, text_eq_refl,
}
use qbrain.Prelude.Int.{ℤ, ◌≤ℤ◌}
use qbrain.Jobs.Table.{active, Job, Brain, select_id, is_waiting}
use qbrain.Jobs.Queue.{
  before, first_job, is_claimable, lock_seconds, claim_write, claim_selected, claim_job,
  reclaim_stalled, get_job, changed,
}
use qbrain.Jobs.Rows.{Ascending}
use qbrain.Jobs.Invariant.{IsBrain}
use qbrain.Jobs.Preserved.{reclaim_stalled-IsBrain, claim_write-IsBrain}
use qbrain.Jobs.ById.{UpdatesOne, update-UpdatesOne}

-- ORDER BY priority ASC, id ASC is a strict order.
before_irrefl : (j k : Job) → before j k ≡ true → before k j ≡ false
before_irrefl j k h = ground arith

before_negtrans : (i j k : Job) → before i k ≡ false → before k j ≡ false → before i j ≡ false
before_negtrans i j k h g = ground arith

before_self : (j : Job) → before j j ≡ false
before_self j = ground arith

-- A row passes, and no row that passes stands before it.
abbrev First : (Job → Bool) → List Job → Job → Type 0
First selects js k = (selects k ≡ true) × All (λ i. selects i ≡ true → before i k ≡ false) js

abbrev pub None : (Job → Bool) → List Job → Type 0
None selects js = All (λ i. selects i ≡ false) js

All-weaken :
    (selects : Job → Bool) (j k : Job) (js : List Job)
    → before k j ≡ false
    → All (λ i. selects i ≡ true → before i k ≡ false) js
    → All (λ i. selects i ≡ true → before i j ≡ false) js
All-weaken selects j k [] h hs = tt
All-weaken selects j k (i ∷ js) h (hi, hs) =
    (λ p. before_negtrans i j k (hi p) h, All-weaken selects j k js h hs)

None-All :
    (selects : Job → Bool) (j : Job) (js : List Job)
    → None selects js
    → All (λ i. selects i ≡ true → before i j ≡ false) js
None-All selects j [] hs = tt
None-All selects j (i ∷ js) (h, hs) = (λ p. absurd (ground arith), None-All selects j js hs)

-- The row that SELECT … ORDER BY … LIMIT 1 returns passes, and no row that passes stands before it;
-- none is returned only if no row passes.
Found : (Job → Bool) → List Job → Option Job → Type 0
Found selects js none = None selects js
Found selects js (some k) = First selects js k

first_job-Found : (selects : Job → Bool) (js : List Job) → Found selects js (first_job selects js)
unfolding first_job Found
first_job-Found selects [] = tt
first_job-Found selects (j ∷ js) =
    go (selects j) refl (first_job selects js) (first_job-Found selects js)
  where
    go :
        (b : Bool)
        → selects j ≡ b
        → (o : Option Job) → Found selects js o
        → Found selects (j ∷ js) (
            if b
            then elim o [ none ↦ some j | some k ↦ if before k j then some k else some j ]
            else o)
    go false e none h = (e, h)
    go false e (some k) h = (h.0, (λ p. absurd (ground arith), h.1))
    go true e none h = (e, (λ _. before_self j, None-All selects j js h))
    go true e (some k) h = elim (Bool-cases (before k j)) [
      | inl earlier ↦ rw earlier ((h.0, (λ _. before_irrefl k j earlier, h.1)))
      | inr later ↦ rw later ((e, (λ _. before_self j, All-weaken selects j k js later h.1)))
    ]

-- The row is in the table under its id.
first_job-find :
    (selects : Job → Bool) (low high : ℕ) (js : List Job) (k : Job)
    → Ascending low high js
    → first_job selects js ≡ some k
    → (low < k.id) × (find? (λ j. j.id == k.id) js ≡ some k)
unfolding first_job
first_job-find selects low high [] k h e = absurd (cc)
first_job-find selects low high (j ∷ js) k (h, hs) e =
    ground (arith, first_job-find selects j.id high js k hs)

abbrev pub claimed_row : Bytes → ℤ → ℕ → Job → Job
claimed_row token lock_ms now j = record j {
  status = active;
  lock_token = some token;
  lock_until = some (now + lock_seconds lock_ms);
  attempts = j.attempts + 1;
  updated_at = now;
  error_text = none;
}

-- The tables after the stalled jobs of the queue are requeued, which a claim does first.
abbrev pub reclaimed : Bytes → ℕ → Brain → Brain
reclaimed queue now b = (reclaim_stalled queue now b).0

claim_write-UpdatesOne :
    (k : Job) (token : Bytes) (lock_ms : ℤ) (now : ℕ) (b : Brain)
    → IsBrain b
    → select_id k.id b ≡ some k
    → UpdatesOne
        (λ j. is_waiting j.status)
        (claimed_row token lock_ms now)
        k.id
        k
        b
        (changed (claim_write k.id token lock_ms now b))
unfolding claim_write
claim_write-UpdatesOne k token lock_ms now b v e =
    update-UpdatesOne (λ j. is_waiting j.status) (claimed_row token lock_ms now) k.id k b
      (λ _. refl) v e

-- A row passes, its priority is the least of all rows that pass, and of those with its priority its
-- id is the least.
abbrev pub FirstInLine : (Job → Bool) → List Job → Job → Type 0
FirstInLine selects js k =
    (selects k ≡ true)
    × All
        (λ i.
          selects i ≡ true → (k.priority ≤ℤ i.priority) × (i.priority ≤ℤ k.priority → k.id ≤ i.id))
        js

First-FirstInLine :
    (selects : Job → Bool) (js : List Job) (k : Job) → First selects js k → FirstInLine selects js k
First-FirstInLine selects js k (e, h) = (e, least js h)
  where
    least :
        (js : List Job)
        → All (λ i. selects i ≡ true → before i k ≡ false) js
        → All
            (λ i.
              selects i ≡ true
              → (k.priority ≤ℤ i.priority) × (i.priority ≤ℤ k.priority → k.id ≤ i.id))
            js
    least [] h = tt
    least (i ∷ js) (h, hs) =
        ((λ p. let no = h p in (ground arith, λ le. ground arith)), least js hs)

-- What a claim hands out.
abbrev pub Claims : Bytes → ℤ → Bytes → List Bytes → ℕ → Brain → Brain × Option Job → Type 0
Claims token lock_ms queue types now b (b', none) =
    None (is_claimable queue types) (reclaimed queue now b).jobs
Claims token lock_ms queue types now b (b', some j) =
    (k : Job) × FirstInLine (is_claimable queue types) (reclaimed queue now b).jobs k
    × (j ≡ claimed_row token lock_ms now k)
    × (select_id j.id b' ≡ some j)
    × ((i : ℕ) → i ≢ j.id → select_id i b' ≡ select_id i (reclaimed queue now b))

claimable_waiting :
    (queue : Bytes) (types : List Bytes) (k : Job)
    → is_claimable queue types k ≡ true
    → is_waiting k.status ≡ true
claimable_waiting queue types k h = ground arith

claim_selected_lem :
    (k : Job) (token : Bytes) (lock_ms : ℤ) (now : ℕ) (b : Brain)
    → IsBrain b
    → select_id k.id b ≡ some k
    → is_waiting k.status ≡ true
    → claim_selected (some k) token lock_ms now b
      ≡ ((claim_write k.id token lock_ms now b).0, some (claimed_row token lock_ms now k))
unfolding claim_selected get_job
claim_selected_lem k token lock_ms now b v e w =
    let effect = claim_write-UpdatesOne k token lock_ms now b v e in
    let found = effect.1 ∙ ap (λ t. some (if t then claimed_row token lock_ms now k else k)) w in
    rw (found, text_eq_refl token) (ground (arith, effect.0))

claim_selected-Claims :
    (o : Option Job) (token : Bytes) (lock_ms : ℤ) (queue : Bytes) (types : List Bytes) (now : ℕ)
    (b : Brain)
    → IsBrain (reclaimed queue now b)
    → first_job (is_claimable queue types) (reclaimed queue now b).jobs ≡ o
    → Found (is_claimable queue types) (reclaimed queue now b).jobs o
    → Claims token lock_ms queue types now b
        (claim_selected o token lock_ms now (reclaimed queue now b))
unfolding Found
claim_selected-Claims none token lock_ms queue types now b v e f = unfold claim_selected in f
claim_selected-Claims (some k) token lock_ms queue types now b v e f =
    let t = reclaimed queue now b in
    let w = claimable_waiting queue types k f.0 in
    let here : select_id k.id t ≡ some k =
      unfold select_id in
      (first_job-find (is_claimable queue types) 0 t.last_job t.jobs k v.ordered e).1 in
    let effect = claim_write-UpdatesOne k token lock_ms now t v here in
    rw (claim_selected_lem k token lock_ms now t v here w) (
      k,
      First-FirstInLine (is_claimable queue types) t.jobs k f,
      refl,
      effect.1 ∙ ap (λ x. some (if x then claimed_row token lock_ms now k else k)) w,
      effect.2,
    )

-- A claim with a token that is not empty, on a well-formed table, first requeues the stalled jobs of
-- the queue. It hands out no job only if no job is then claimable; otherwise it hands out the
-- claimable job of the least priority number, and of those the least id, as it then stands in the table:
-- active under the worker's token and lock time, one more attempt, no error; no other row changes.
pub claim_job-Claims :
    (token : Bytes) (lock_ms : ℤ) (queue : Bytes) (types : List Bytes) (now : ℕ) (b : Brain)
    → IsBrain b
    → is_empty token ≡ false
    → Claims token lock_ms queue types now b (claim_job token lock_ms queue types now b)
unfolding claim_job
claim_job-Claims token lock_ms queue types now b v full = rw full (
    claim_selected-Claims _ token lock_ms queue types now b (reclaim_stalled-IsBrain queue now b v)
      refl (first_job-Found (is_claimable queue types) (reclaimed queue now b).jobs))

lost_race :
    (k row : Job) (token : Bytes) (lock_ms : ℤ) (now : ℕ) (b : Brain)
    → IsBrain b
    → row.id ≡ k.id
    → select_id row.id b ≡ some row
    → is_waiting row.status ≡ false
    → (claim_selected (some k) token lock_ms now b).1 ≡ none
unfolding claim_selected
lost_race k row token lock_ms now b v same e gone =
    rw (← same) (ground (arith, (claim_write-UpdatesOne row token lock_ms now b v e).0))

-- Two workers that both selected the same waiting job of a well-formed table before either wrote:
-- the first to write, under a token that is not empty, gets it, and the second gets nothing.
pub claim_selected_race :
    (k : Job) (mine yours : Bytes) (lock_ms lock_ms' : ℤ) (now now' : ℕ) (b : Brain)
    → IsBrain b
    → select_id k.id b ≡ some k
    → is_waiting k.status ≡ true
    → is_empty mine ≡ false
    → let won = claim_selected (some k) mine lock_ms now b in
      (won.1 ≡ some (claimed_row mine lock_ms now k))
      × ((claim_selected (some k) yours lock_ms' now' won.0).1 ≡ none)
claim_selected_race k mine yours lock_ms lock_ms' now now' b v e w full =
    let row = claimed_row mine lock_ms now k in
    let first = claim_write-UpdatesOne k mine lock_ms now b v e in
    let taken = first.1 ∙ ap (λ t. some (if t then row else k)) w in
    rw (claim_selected_lem k mine lock_ms now b v e w) (
      refl,
      lost_race k row yours lock_ms' now' _ (claim_write-IsBrain k.id mine lock_ms now b full v)
          refl taken refl,
    )
