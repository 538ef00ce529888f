-- ===== src/Embed/Completes.antt =====
-- An execution that nobody disturbs, with a provider that answers, completes its job.
use qbrain.Prelude.{
  ℕ, suc, ◌+◌, ◌/◌, ◌<◌, ◌≤◌, ◌≡◌, refl, ap, inl, inr, ◌&&◌, ◌||◌, ◌==◌, Bool, true, not, some,
  List, [], ◌∷◌, select, count, find?, length, arith, All,
}
use qbrain.Jobs.Table.{Job, select_id}
use qbrain.Embed.Tables.{World, Page, Config, returns, throws, unless, >>=-elim}
use qbrain.Embed.Batch.{batch_limit}
use qbrain.Embed.Execute.{
  Host, Moment, no_progress, read_payload, bounded_count, execute_embedding_job,
}
use qbrain.Embed.Fence.{is_held_embed, lease_seconds}
use qbrain.Embed.Changes.{unless-false}
use qbrain.Embed.Stored.{is_pending, Rising, select-Rising}
use qbrain.Embed.Requests.{Fits}
use qbrain.Embed.Claimed.{first-IsLive}
use qbrain.Embed.Ready.{IsReady, IsDone}
use qbrain.Jobs.Invariant.{IsBrain}
use qbrain.Embed.Execute.{valid_dimensions, valid_embedding_model, payload_page}
use qbrain.Embed.Tables.{exception}
use qbrain.Prelude.{Option-cases}
use native.Mathlib.Nat.{le-div_iff_mul-le}
use qbrain.Embed.Batch.{vector_width}
use qbrain.Embed.Calm.{Answers, embed_rounds-IsDone}

length-select : {A : Type 0} (p : A → Bool) (xs : List A) → length (select p xs) ≡ count p xs
length-select p [] = refl
length-select p (x ∷ xs) = ground (arith, length-select p xs)

quotient-pos : (n d : ℕ) → 0 < d → d ≤ n → 1 ≤ n / d
quotient-pos n d some_d le = (le-div_iff_mul-le some_d).1 (omega arith)

width_bounds :
    (cfg : Config)
    → valid_dimensions cfg.embedding_dimensions ≡ true
    → (0 < vector_width cfg) × (vector_width cfg ≤ 16384)
width_bounds cfg h = ground arith

room_of_dimensions :
    (cfg : Config) → valid_dimensions cfg.embedding_dimensions ≡ true → 1 ≤ batch_limit cfg
room_of_dimensions cfg h =
    let (some_width, small) = width_bounds cfg h in
    let quotient = quotient-pos 260096 (vector_width cfg) some_width (omega arith) in
    omega (arith, quotient)

read_payload-room :
    (host : Host) (cfg : Config) (job : Job) (page : ℕ)
    → read_payload host cfg job ≡ returns page
    → 1 ≤ batch_limit cfg
unfolding read_payload
read_payload-room host cfg job page h = elim (Option-cases (host.parse job.payload_json)) [
  | inl e ↦ let no : throws exception ≡ returns page = rw (e, read_payload) at h in absurd (cc)
  | inr (j, e) ↦ >>=-elim (payload_page j) _ (rw (e, read_payload) at h) λ _ _ h1.
      >>=-elim
        (unless
          (not (valid_embedding_model cfg.embedding_model)
            || not (valid_dimensions cfg.embedding_dimensions))
          _)
        _ h1 λ _ u _. let good = unless-false _ _ u in room_of_dimensions cfg (ground arith)
]

-- A claimed embedding job is completed in the end, if the payload and the configuration pass the
-- checks, nobody else writes, each transaction begins within the lease of the one before, the
-- provider answers with vectors that pass the check, the page is there, and every text without an
-- embedding fits a request: then no chunk of the page is left without an embedding, the row of the
-- job is completed, and the result is the number of chunks that had none. As many rounds are enough
-- as there are such chunks, and one more.
pub execute_embedding_job_completes :
    (host : Host) (cfg : Config) (job : Job) (at : ℕ → Moment) (fuel : ℕ) (w : World) (page : ℕ)
    (pg : Page) (row : Job)
    → read_payload host cfg job ≡ returns page
    → ((k : ℕ) (v : World) → (at k).others v ≡ v)
    → ((k : ℕ) → (at (suc k)).now < (at k).now + lease_seconds)
    → Answers host cfg
    → IsBrain w.brain
    → select_id job.id w.brain ≡ some row
    → is_held_embed job (at 0).now row ≡ true
    → find? (λ p. p.id == page && not p.deleted) w.pages ≡ some pg
    → Rising 0 w.chunks
    → All (Fits (host.envelope_bytes cfg)) (select (is_pending page) w.chunks)
    → count (is_pending page) w.chunks < fuel
    → (w' : World) × (execute_embedding_job host cfg job at fuel w
        ≡ some (w', bounded_count (count (is_pending page) w.chunks)))
      × IsDone job page w'
unfolding execute_embedding_job select_id
execute_embedding_job_completes host cfg job at fuel w page pg row payload calm timely answers v
      found held there rising fits enough =
    let rest = select (is_pending page) w.chunks in
    let many = length-select (is_pending page) w.chunks in
    let ready : IsReady host cfg job page pg (at 0).now no_progress w rest = record {
      until = suc (at 0).now;
      before = omega arith;
      live = first-IsLive job (at 0).now 0 w.brain.last_job w.brain.jobs row v.ordered found held;
      there = there;
      rising = rising;
      pending = refl;
      behind = select-Rising (is_pending page) 0 w.chunks rising;
      fits = fits;
      expected = tt;
    } in
    let counted : 0 + length rest ≡ count (is_pending page) w.chunks = omega (arith, many) in
    let (w', ran, over) =
      embed_rounds-IsDone host cfg job page pg at calm timely answers
        (read_payload-room host cfg job page payload) fuel 0 no_progress w rest
        (omega (arith, many)) ready in
    (
      w',
      rw (payload, ran, execute_embedding_job) (ap (λ (n : ℕ). some (w', bounded_count n)) counted),
      over,
    )
