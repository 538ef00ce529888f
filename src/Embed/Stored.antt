-- ===== src/Embed/Stored.antt =====
-- What storing a batch does to the chunks of its page.
use mathlib.Core.Path.{subst}
use qbrain.Prelude.{
  ℕ, ◌<◌, ◌≤◌, ◌≡◌, refl, ap, ◌∙◌, inl, inr, ◌&&◌, Bool, true, false, List, [], ◌∷◌, ◌++◌, map,
  Bytes, select, count, length, is_empty, text_eq_refl, Bool-cases, arith, All,
}
use qbrain.Embed.Tables.{Chunk, returns, in_page, max_chunk_id}
use qbrain.Embed.Batch.{
  Pending, pending_of, unembedded, is_next, is_unchanged, with_vector, rewrite_chunks, apply_batch,
  pack_f32,
}
use qbrain.Embed.Execute.{last_id}

abbrev pub is_pending : ℕ → Chunk → Bool
is_pending page c = in_page page c && unembedded c

-- The ids ascend strictly, above a number.
abbrev pub Rising : ℕ → List Chunk → Type 0
Rising low [] = Unit
Rising low (c ∷ cs) = (low < c.id) × Rising c.id cs

pub Rising-le : (low low' : ℕ) (cs : List Chunk) → low' ≤ low → Rising low cs → Rising low' cs
Rising-le low low' [] le h = tt
Rising-le low low' (c ∷ cs) le (h, hs) = (omega arith, hs)

pub select-Rising :
    (p : Chunk → Bool) (low : ℕ) (cs : List Chunk) → Rising low cs → Rising low (select p cs)
select-Rising p low [] h = tt
select-Rising p low (c ∷ cs) (h, hs) = elim (Bool-cases (p c)) [
  | inl e ↦ rw e (h, select-Rising p c.id cs hs)
  | inr e ↦ rw e (Rising-le c.id low (select p cs) (omega arith) (select-Rising p c.id cs hs))
]

-- What is left lies above the last row of the batch.
pub Rising-last :
    (low : ℕ) (q : Chunk) (qs rs : List Chunk)
    → Rising low ((q ∷ qs) ++ rs)
    → Rising (last_id (pending_of q) (map pending_of qs)) rs
Rising-last low q [] rs (h, hs) = hs
Rising-last low q (r ∷ qs) rs (h, hs) = Rising-last q.id r qs rs hs

-- The rows behind the cursor are the rows without an embedding.
pub select-next :
    (page after low : ℕ) (cs : List Chunk)
    → Rising low cs
    → Rising after (select (is_pending page) cs)
    → select (is_next page after) cs ≡ select (is_pending page) cs
select-next page after low [] h r = refl
select-next page after low (c ∷ cs) (h, hs) r = elim (Bool-cases (is_pending page c)) [
  | inl e ↦
      let above : (after < c.id) × Rising c.id (select (is_pending page) cs) = rw e at r in
      let next : is_next page after c ≡ true = ground arith in
      rw (e, next)
        (ap (◌∷◌ c) (
          select-next page after c.id cs hs
            (Rising-le c.id after (select (is_pending page) cs) (omega arith) above.1)))
  | inr e ↦
      let next : is_next page after c ≡ false = ground arith in
      let rest : Rising after (select (is_pending page) cs) = rw e at r in
      rw (e, next) (select-next page after c.id cs hs rest)
]

-- No row with a higher id is the one that was read.
above-unchanged :
    (page low : ℕ) (p : Pending) (model : Bytes) (v : List ℕ) (cs : List Chunk)
    → Rising low cs
    → p.id ≤ low
    → (count (is_unchanged page p) cs ≡ 0)
      × (rewrite_chunks (is_unchanged page p) (with_vector model v) cs ≡ cs)
unfolding rewrite_chunks
above-unchanged page low p model v [] h le = (refl, refl)
above-unchanged page low p model v (c ∷ cs) (h, hs) le =
    let (none_left, same) = above-unchanged page c.id p model v cs hs (omega arith) in
    let other : is_unchanged page p c ≡ false = ground arith in
    (rw other none_left, rw other (ap (◌∷◌ c) same))

-- The ids, and the numbers that a snapshot takes of the page.
pub record SamePage (page low : ℕ) (cs cs' : List Chunk) : Type 0 where
  pub rising : Rising low cs'
  pub counted : count (in_page page) cs' ≡ count (in_page page) cs
  pub highest : max_chunk_id page cs' ≡ max_chunk_id page cs

pack_f32_full : (v : List ℕ) → is_empty v ≡ false → is_empty (pack_f32 v) ≡ false
unfolding pack_f32
pack_f32_full [] h = absurd (cc)
pack_f32_full (f ∷ v) h = refl

-- The vector of a row is stored, and the rows without an embedding are those behind it.
abbrev Stores : (page low : ℕ) → Bytes → List ℕ → List Chunk → Chunk → List Chunk → Type 0
Stores page low model v cs q rs =
    let sel = is_unchanged page (pending_of q) in
    let cs' = rewrite_chunks sel (with_vector model v) cs in
    (count sel cs ≡ 1) × (select (is_pending page) cs' ≡ rs) × SamePage page low cs cs'

store_head :
    (page low : ℕ) (model : Bytes) (v : List ℕ) (c : Chunk) (cs : List Chunk)
    → Rising low (c ∷ cs)
    → is_empty v ≡ false
    → is_pending page c ≡ true
    → Stores page low model v (c ∷ cs) c (select (is_pending page) cs)
unfolding rewrite_chunks
store_head page low model v c cs (h, hs) full here =
    let packed = pack_f32_full v full in
    let (none_left, kept) = above-unchanged page c.id (pending_of c) model v cs hs (omega arith) in
    let hit : is_unchanged page (pending_of c) c ≡ true = ground (arith, text_eq_refl c.text) in
    let gone : is_pending page (with_vector model v c) ≡ false = ground arith in
    (
      rw (hit, none_left) refl,
      rw (hit, kept, gone) refl,
      rw (hit, kept) (record { rising = (h, hs); counted = refl; highest = refl }),
    )

-- Storing the vector of the first row without an embedding.
store_first :
    (page low : ℕ) (model : Bytes) (v : List ℕ) (cs : List Chunk) (q : Chunk) (rs : List Chunk)
    → Rising low cs
    → is_empty v ≡ false
    → select (is_pending page) cs ≡ q ∷ rs
    → Stores page low model v cs q rs
unfolding rewrite_chunks
store_first page low model v [] q rs h full e = absurd (cc)
store_first page low model v (c ∷ cs) q rs (h, hs) full e = elim (Bool-cases (is_pending page c)) [
  | inl here ↦
      let found : (c ∷ select (is_pending page) cs) ≡ (q ∷ rs) = rw here at e in
      let same : c ≡ q = cc found in
      let rest : select (is_pending page) cs ≡ rs = cc found in
      subst (λ (x : Chunk). Stores page low model v (c ∷ cs) x rs) same
        (subst (λ (xs : List Chunk). Stores page low model v (c ∷ cs) c xs) rest
          (store_head page low model v c cs (h, hs) full here))
  | inr away ↦
      let found : select (is_pending page) cs ≡ q ∷ rs = rw away at e in
      let (one, left, same) = store_first page c.id model v cs q rs hs full found in
      let miss : is_unchanged page (pending_of q) c ≡ false = ground arith in
      (
        rw miss one,
        rw (miss, away) left,
        rw miss (record {
          rising = (h, same.rising);
          counted = ground (arith, same.counted);
          highest = ground (arith, same.highest);
        }),
      )
]

-- Storing a batch that begins with the first row without an embedding.
pub apply_batch-stores :
    (page low : ℕ) (model : Bytes) (qs rs : List Chunk) (vs : List (List ℕ)) (cs : List Chunk)
    → Rising low cs
    → All (λ v. is_empty v ≡ false) vs
    → length vs ≡ length qs
    → select (is_pending page) cs ≡ qs ++ rs
    → (cs' : List Chunk) × (apply_batch page model (map pending_of qs) vs cs ≡ returns cs')
      × (select (is_pending page) cs' ≡ rs)
      × SamePage page low cs cs'
unfolding apply_batch
apply_batch-stores page low model [] rs vs cs h full len e =
    (cs, refl, e, record { rising = h; counted = refl; highest = refl })
apply_batch-stores page low model (q ∷ qs) rs [] cs h full len e = absurd (omega arith)
apply_batch-stores page low model (q ∷ qs) rs (v ∷ vs) cs h (f, full) len e =
    let (one, left, same) = store_first page low model v cs q (qs ++ rs) h f e in
    let next = rewrite_chunks (is_unchanged page (pending_of q)) (with_vector model v) cs in
    let (cs', done, rest, again) =
      apply_batch-stores page low model qs rs vs next same.rising full (omega arith) left in
    (
      cs',
      rw one done,
      rest,
      record {
        rising = again.rising;
        counted = again.counted ∙ same.counted;
        highest = again.highest ∙ same.highest;
      },
    )
