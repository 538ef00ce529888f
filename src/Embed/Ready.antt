-- ===== src/Embed/Ready.antt =====
-- The transactions of a round on tables that nobody else changes.
use mathlib.Core.Path.{subst}
use qbrain.Prelude.{
  ℕ, zero, suc, ◌+◌, ◌<◌, ◌≤◌, ◌≡◌, refl, sym, ◌∙◌, inl, inr, ◌&&◌, ◌==◌, Bool, true, false, not,
  none, some, List, [], ◌∷◌, ◌++◌, map, select, any, find?, take, length, is_empty, Bool-cases,
  arith, All,
}
use qbrain.Jobs.Table.{Job, active, completed, select_id}
use qbrain.Embed.Tables.{World, Page, Chunk, Config, returns, PageSnapshot, snapshot_of, in_page}
use qbrain.Embed.Batch.{
  Pending, pending_of, unembedded, next_batch, batch_limit, EmbedResult, validate_result,
}
use qbrain.Embed.Execute.{
  Host, Progress, finished, opened, close_batch, open_batch, store_batch, stored,
}
use qbrain.Embed.Fence.{renewed, recorded, is_held, is_held_embed, lease_seconds}
use qbrain.Embed.Steps.{rewritten}
use qbrain.Embed.Stored.{is_pending, Rising, Rising-last, select-next, apply_batch-stores}
use qbrain.Embed.Requests.{Fits, Batched, fill_batch-Batched, validate_result-full}
use qbrain.Embed.Claimed.{IsLive, fence-IsLive, record_progress-IsLive, record_progress-completed}
use qbrain.Embed.Snapshots.{IsExpected, snapshot_kept, check_snapshot_same, expect_snapshot_found}
use qbrain.Prelude.{All-take, All-append_right}

any-select : {A : Type 0} (p : A → Bool) (xs : List A) → select p xs ≡ [] → any p xs ≡ false
any-select p [] h = refl
any-select p (x ∷ xs) h = elim (Bool-cases (p x)) [
  | inl e ↦ let no : (x ∷ select p xs) ≡ [] = rw e at h in absurd (cc)
  | inr e ↦ rw e (any-select p xs (rw e at h))
]

pub part_of_nil : {A : Type 0} (n : ℕ) (xs ys : List A) → xs ++ ys ≡ take n [] → xs ≡ []
part_of_nil n [] ys e = refl
part_of_nil zero (x ∷ xs) ys e = absurd (cc)
part_of_nil (suc n) (x ∷ xs) ys e = absurd (cc)

pub full_cons :
    {A : Type 0} (xs : List A) → is_empty xs ≡ false → (y : A) × (ys : List A) × (xs ≡ y ∷ ys)
full_cons [] h = absurd (cc)
full_cons (x ∷ xs) h = (x, xs, refl)

pub full_take :
    {A : Type 0} (n : ℕ) (x : A) (xs : List A) → 1 ≤ n → is_empty (take n (x ∷ xs)) ≡ false
full_take zero x xs h = absurd (omega arith)
full_take (suc n) x xs h = refl

-- The tables between two rounds; `rest` are the chunks of the page without an embedding.
pub record IsReady (host : Host) (cfg : Config) (job : Job) (page : ℕ) (pg : Page) (now : ℕ)
    (progress : Progress) (w : World) (rest : List Chunk) : Type 0 where
  pub until : ℕ
  pub before : now < until
  pub live : IsLive job until w.brain.jobs
  pub there : find? (λ p. p.id == page && not p.deleted) w.pages ≡ some pg
  pub rising : Rising 0 w.chunks
  pub pending : select (is_pending page) w.chunks ≡ rest
  pub behind : Rising progress.cursor rest
  pub fits : All (Fits (host.envelope_bytes cfg)) rest
  pub expected : IsExpected page pg progress.expected w.chunks

-- The job is completed, and no chunk of the page is without an embedding.
abbrev pub IsDone : Job → ℕ → World → Type 0
IsDone job page w =
    (any (λ c. in_page page c && unembedded c) w.chunks ≡ false)
    × ((row : Job) × (select_id job.id w.brain ≡ some row) × (row.status ≡ completed))

module _ (host : Host) (cfg : Config) (job : Job) (page : ℕ) (pg : Page) where
  abbrev pub renew : ℕ → World → World
  renew now w = rewritten (is_held_embed job now) (renewed now) w

  -- The batch of a round takes a first part of the rest, and some of it if there is any.
  pub batch_round :
      (now : ℕ) (progress : Progress) (w : World) (rest : List Chunk)
      → IsReady host cfg job page pg now progress w rest
      → (b : Batched true (host.envelope_bytes cfg) (take (batch_limit cfg) rest)) × (next_batch cfg
            (host.envelope_bytes cfg)
            page
            progress.cursor
            w.chunks
          ≡ returns (map pending_of b.taken))
  unfolding next_batch
  batch_round now progress w rest r =
      let envelope = host.envelope_bytes cfg in
      let b =
        fill_batch-Batched envelope true envelope (take (batch_limit cfg) rest) (λ _. refl)
          (All-take (Fits envelope) (batch_limit cfg) rest r.fits) in
      let behind = subst (Rising progress.cursor) (sym r.pending) r.behind in
      let all_next = select-next page progress.cursor 0 w.chunks r.rising behind ∙ r.pending in
      (b, rw all_next b.filled)

  pub open_round :
      (now : ℕ) (progress : Progress) (w : World) (rest : List Chunk) (batch : List Pending)
      → IsReady host cfg job page pg now progress w rest
      → next_batch cfg (host.envelope_bytes cfg) page progress.cursor w.chunks ≡ returns batch
      → open_batch host cfg job page now progress w
        ≡ close_batch host cfg job page
            (snapshot_of page w.chunks pg)
            batch
            now
            progress
            (renew now w)
  unfolding open_batch
  open_round now progress w rest batch r e =
      let (fenced, _) = fence-IsLive job r.until now w r.before r.live in
      let found =
        expect_snapshot_found page pg (renew now w) r.there progress.expected r.expected in
      rw (fenced, found, e) refl

  pub close_round :
      (now : ℕ) (progress : Progress) (w : World) (s : PageSnapshot)
      → IsReady host cfg job page pg now progress w []
      → (w' : World) × (close_batch host cfg job page s [] now progress (renew now w)
          ≡ returns (w', finished))
        × IsDone job page w'
  unfolding close_batch
  close_round now progress w s r =
      let (fenced, live) = fence-IsLive job r.until now w r.before r.live in
      let final = host.progress_text progress.persisted progress.batches "completed" none in
      let none_left = any-select (is_pending page) w.chunks r.pending in
      let (recorded_end, ended_row) =
        record_progress-completed job (now + lease_seconds) now (renew now w) (omega arith) final
          live in
      (
        rewritten (is_held job now) (recorded completed final none now) (renew now w),
        rw (none_left, recorded_end) refl,
        (none_left, ended_row),
      )

  pub close_opened :
      (now : ℕ) (progress : Progress) (w : World) (s : PageSnapshot) (p : Pending)
      (ps : List Pending)
      → close_batch host cfg job page s (p ∷ ps) now progress (renew now w)
        ≡ returns (renew now w, opened s p ps)
  unfolding close_batch
  close_opened now progress w s p ps = refl

  -- The second transaction of a round, and what it leaves for the next.
  pub store_round :
      (now now' next : ℕ) (progress : Progress) (w : World) (q : Chunk) (qs rs : List Chunk)
      (answer : EmbedResult)
      → IsReady host cfg job page pg now progress w ((q ∷ qs) ++ rs)
      → now' < now + lease_seconds
      → next < now' + lease_seconds
      → validate_result cfg (length (q ∷ qs)) answer ≡ returns tt
      → let snapshot = snapshot_of page w.chunks pg in
        let p = pending_of q in
        let ps = map pending_of qs in
        (w' : World) × (store_batch host cfg job page snapshot
            (p ∷ ps)
            answer
            now'
            progress
            (renew now w)
          ≡ returns w')
        × IsReady host cfg job page pg next (stored snapshot p ps progress) w' rs
  unfolding store_batch
  store_round now now' next progress w q qs rs answer r soon later valid =
      let (_, live) = fence-IsLive job r.until now w r.before r.live in
      let w1 = renew now w in
      let (fenced, live') = fence-IsLive job (now + lease_seconds) now' w1 soon live in
      let w2 = renew now' w1 in
      let same = check_snapshot_same page pg w2 r.there in
      let (many, full) = validate_result-full cfg (length (q ∷ qs)) answer valid in
      let (cs', applied, left, kept) =
        apply_batch-stores page 0 answer.model (q ∷ qs) rs answer.vectors w.chunks r.rising full
          many r.pending in
      let w3 : World = record w2 { chunks = cs' } in
      let p =
        host.progress_text (progress.persisted + length (pending_of q ∷ map pending_of qs))
          (progress.batches + 1) "partial" none in
      let (done, live'') =
        record_progress-IsLive job (now' + lease_seconds) now' w3 (omega arith) p none live' in
      (
        rewritten (is_held job now') (recorded active p none now') w3,
        rw (fenced, same, applied, done) refl,
        record {
          until = now' + lease_seconds;
          before = later;
          live = live'';
          there = r.there;
          rising = kept.rising;
          pending = left;
          behind = Rising-last progress.cursor q qs rs r.behind;
          fits = All-append_right (Fits (host.envelope_bytes cfg)) (q ∷ qs) rs r.fits;
          expected = snapshot_kept page pg w.chunks cs' kept;
        },
      )
