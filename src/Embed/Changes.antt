-- ===== src/Embed/Changes.antt =====
-- The transactions of a round and of a failure are changes of the job.
use mathlib.Core.Path.{subst}
use Prim.Native.String.{String}
use qbrain.Prelude.{
  ℕ, ◌≡◌, ◌≢◌, refl, sym, ap, ◌∙◌, inl, inr, ◌&&◌, ◌==◌, Bool, true, false, none, some, List, [],
  ◌∷◌, Bytes, count, any, Bool-cases, arith,
}
use qbrain.Jobs.Table.{Status, active, completed, Job, is_active}
use qbrain.Embed.Tables.{
  World, Chunk, Config, returns, throws, Failure, stop, unless, PageSnapshot, in_page, >>=-elim,
  returns_injective, check_snapshot,
}
use qbrain.Embed.Batch.{
  Pending, EmbedResult, unembedded, is_unchanged, with_vector, rewrite_chunks, apply_batch,
  next_batch,
}
use qbrain.Embed.Execute.{
  Host, Progress, Opened, finished, opened, expect_snapshot, close_batch, open_batch, store_batch,
  fail_batch,
}
use qbrain.Embed.Fence.{fence, record_progress}
use qbrain.Embed.Steps.{Filled, Change, fence-Change, recorded-Change, fence_keeps_content}
use qbrain.Prelude.{Pointwise, Pointwise-refl, Pointwise-trans}

pub unless-false : (b : Bool) (e : Failure) {u : Unit {0}} → unless b e ≡ returns u → b ≡ false
unless-false true e h = absurd (cc)
unless-false false e h = refl

Filled-trans : (page : ℕ) (a b c : Chunk) → Filled page a b → Filled page b c → Filled page a c
Filled-trans page a b c (inl e) (inl f) = inl (f ∙ e)
Filled-trans page a b c (inl e) (inr f) = subst (λ x. Filled page x c) e (inr f)
Filled-trans page a b c (inr e) (inl f) = subst (Filled page a) (sym f) (inr e)
Filled-trans page a b c (inr (h, e)) (inr (k, f)) = inr (
  h,
  f ∙ ap (λ (x : Chunk). record x { embedding = c.embedding; dim = c.dim; model = c.model }) e,
)

rewrite_chunks-Filled :
    (page : ℕ) (model : Bytes) (p : Pending) (v : List ℕ) (cs : List Chunk)
    → Pointwise (Filled page) cs (rewrite_chunks (is_unchanged page p) (with_vector model v) cs)
unfolding rewrite_chunks
rewrite_chunks-Filled page model p v [] = tt
rewrite_chunks-Filled page model p v (c ∷ cs) = (
  elim (Bool-cases (is_unchanged page p c)) [
    | inl h ↦
        let mine : (in_page page c && unembedded c) ≡ true = ground arith in rw h (inr (mine, refl))
    | inr h ↦ rw h (inl refl)
  ],
  rewrite_chunks-Filled page model p v cs,
)

apply_batch-Filled :
    (page : ℕ) (model : Bytes) (ps : List Pending) (vs : List (List ℕ)) (cs : List Chunk)
    {cs' : List Chunk}
    → apply_batch page model ps vs cs ≡ returns cs'
    → Pointwise (Filled page) cs cs'
unfolding apply_batch
apply_batch-Filled page model [] vs cs h =
    subst (Pointwise (Filled page) cs) (returns_injective h)
      (Pointwise-refl (Filled page) cs (λ c. inl refl))
apply_batch-Filled page model (p ∷ ps) [] cs h =
    subst (Pointwise (Filled page) cs) (returns_injective h)
      (Pointwise-refl (Filled page) cs (λ c. inl refl))
apply_batch-Filled page model (p ∷ ps) (v ∷ vs) cs {cs'} h =
    let next = rewrite_chunks (is_unchanged page p) (with_vector model v) cs in
    elim (Bool-cases (count (is_unchanged page p) cs == 1)) [
      | inl e ↦
          Pointwise-trans (Filled page) cs next cs' (Filled-trans page)
            (rewrite_chunks-Filled page model p v cs)
            (apply_batch-Filled page model ps vs next (rw e at h))
      | inr e ↦
          let no : throws (stop "stale" "embedding chunk changed; retry explicitly" false)
              ≡ returns cs' =
            rw e at h in
          absurd (cc)
    ]

-- The status of the job after the first transaction of a round.
abbrev opened_status : Opened → Status
opened_status finished = completed
opened_status (opened snapshot p ps) = active

module _ (host : Host) (cfg : Config) (job : Job) (page : ℕ) where
  close_batch-Change :
      (snapshot : PageSnapshot) (batch : List Pending) (now : ℕ) (progress : Progress)
      (w held : World) {r : World × Opened}
      → fence job now w ≡ returns held
      → close_batch host cfg job page snapshot batch now progress held ≡ returns r
      → Change job now page (opened_status r.1) w r.0
  unfolding close_batch
  close_batch-Change snapshot (p ∷ ps) now progress w held h k =
      subst (λ (r : World × Opened). Change job now page (opened_status r.1) w r.0)
        (returns_injective k) (fence-Change job now page w h)
  close_batch-Change snapshot [] now progress w held h k =
      let any_left = any (λ c. in_page page c && unembedded c) held.chunks in
      >>=-elim (unless any_left (stop "stale" "embedding work changed; retry explicitly" false)) _ k
        λ _ u k1.
          let none_left =
            unless-false any_left (stop "stale" "embedding work changed; retry explicitly" false)
              u in
          let kept = (fence_keeps_content job now w h).0 in
          let final = host.progress_text progress.persisted progress.batches "completed" none in
          >>=-elim (record_progress job completed final none now held) _ k1 λ w' done k2.
            subst (λ (r : World × Opened). Change job now page (opened_status r.1) w r.0)
              (returns_injective k2)
              (recorded-Change job now page completed final none w held.chunks h done
                (fence-Change job now page w h).filled (λ _. none_left) (λ _. kept))

  pub open_batch-Change :
      (now : ℕ) (progress : Progress) (w : World) {r : World × Opened}
      → open_batch host cfg job page now progress w ≡ returns r
      → Change job now page (opened_status r.1) w r.0
  unfolding open_batch
  open_batch-Change now progress w k = >>=-elim (fence job now w) _ k λ held h k1.
      >>=-elim (expect_snapshot progress.expected page held) _ k1 λ snapshot _ k2.
        >>=-elim (next_batch cfg (host.envelope_bytes cfg) page progress.cursor held.chunks) _ k2
          λ batch _ k3. close_batch-Change snapshot batch now progress w held h k3

  pub store_batch-Change :
      (snapshot : PageSnapshot) (batch : List Pending) (r : EmbedResult) (now : ℕ)
      (progress : Progress) (w : World) {w' : World}
      → store_batch host cfg job page snapshot batch r now progress w ≡ returns w'
      → Change job now page active w w'
  unfolding store_batch
  store_batch-Change snapshot batch r now progress w {w'} k =
      >>=-elim (fence job now w) _ k λ held h k1.
        >>=-elim (check_snapshot page snapshot held) _ k1 λ _ _ k2.
          >>=-elim (apply_batch page r.model batch r.vectors held.chunks) _ k2 λ cs applied k3.
            recorded-Change job now page active _ none w cs h k3
              (subst (λ (from : List Chunk). Pointwise (Filled page) from cs)
                (fence_keeps_content job now w h).0
                (apply_batch-Filled page r.model batch r.vectors held.chunks applied))
              (λ no. cc) (λ no. cc)

pub fail_batch-Change :
    (host : Host) (job : Job) (page : ℕ) (s : Status) (outcome message : String) (now : ℕ)
    (progress : Progress) (w : World) {w' : World}
    → is_active s ≡ false
    → s ≢ completed
    → fail_batch host job s outcome message now progress w ≡ returns w'
    → Change job now page s w w'
unfolding fail_batch
fail_batch-Change host job page s outcome message now progress w over other k =
    >>=-elim (fence job now w) _ k λ held h k1.
      let kept = (fence_keeps_content job now w h).0 in
      recorded-Change job now page s _ (some message) w held.chunks h k1
        (fence-Change job now page w h).filled (λ e. absurd (other e)) (λ _. kept)
