-- ===== src/Embed/Calm.antt =====
-- The rounds of an execution that nobody disturbs, with a provider that answers.
use mathlib.Core.Path.{subst}
use qbrain.Prelude.{
  ℕ, zero, suc, ◌+◌, ◌<◌, ◌≤◌, ◌≡◌, refl, sym, ap, ◌∙◌, some, List, [], ◌∷◌, ◌++◌, map, Bytes, drop,
  take-append-drop, length, length-append, length-take, length-map, append_assoc, arith,
}
use qbrain.Jobs.Table.{Job}
use qbrain.Embed.Tables.{World, Page, Chunk, Config, returns, PageSnapshot, snapshot_of}
use qbrain.Embed.Batch.{Pending, pending_of, batch_limit, EmbedResult, validate_result}
use qbrain.Embed.Execute.{
  Host, Moment, Progress, finished, opened, open_batch, request, store_batch, stored, embed_rounds,
}
use qbrain.Embed.Fence.{lease_seconds}
use qbrain.Embed.Ready.{
  IsReady, IsDone, renew, batch_round, open_round, close_round, close_opened, store_round,
  part_of_nil, full_cons, full_take,
}

-- The provider answers each request that is not empty and no larger than a batch with vectors that
-- pass the check.
abbrev pub Answers : Host → Config → Type 0
Answers host cfg =
    (k : ℕ) (texts : List Bytes)
    → 1 ≤ length texts
    → length texts ≤ batch_limit cfg
    → (r : EmbedResult) × (host.embed_texts k cfg texts ≡ some r)
      × (validate_result cfg (length texts) r ≡ returns tt)

module _ (host : Host) (cfg : Config) (job : Job) (page : ℕ) (pg : Page) (at : ℕ → Moment)
    (calm : (k : ℕ) (v : World) → (at k).others v ≡ v)
    (timely : (k : ℕ) → (at (suc k)).now < (at k).now + lease_seconds) (answers : Answers host cfg)
    (room : 1 ≤ batch_limit cfg) where
  -- What a request returns for a batch.
  request_round :
      (k : ℕ) (q : Chunk) (qs : List Chunk)
      → length (q ∷ qs) ≤ batch_limit cfg
      → (r : EmbedResult) × (request host cfg k (pending_of q ∷ map pending_of qs) ≡ returns r)
        × (validate_result cfg (length (q ∷ qs)) r ≡ returns tt)
  unfolding request
  request_round k q qs small =
      let texts = map (λ p. p.text) (map pending_of (q ∷ qs)) in
      let measured : length texts ≡ length (q ∷ qs) =
        length-map (λ (p : Pending). p.text) (map pending_of (q ∷ qs))
        ∙ length-map pending_of (q ∷ qs) in
      let (r, given, valid) = answers k texts (omega arith) (omega (arith, measured)) in
      let valid' = subst (λ (n : ℕ). validate_result cfg n r ≡ returns tt) measured valid in
      let batched =
        subst (λ (n : ℕ). validate_result cfg n r ≡ returns tt)
          (sym (length-map pending_of (q ∷ qs))) valid' in
      (r, rw (given, batched, request) refl, valid')

  -- A round that ends the job, and a round that is followed by another.
  round_finished :
      (fuel k : ℕ) (progress : Progress) (w w1 : World)
      → open_batch host cfg job page (at k).now progress w ≡ returns (w1, finished)
      → embed_rounds host cfg job page at (suc fuel) k progress w ≡ some (w1, progress.persisted)
  unfolding embed_rounds
  round_finished fuel k progress w w1 e = rw (calm k w, e, embed_rounds) refl

  round_again :
      (fuel k : ℕ) (progress : Progress) (w w1 w3 : World) (s : PageSnapshot) (p : Pending)
      (ps : List Pending) (r : EmbedResult)
      → open_batch host cfg job page (at k).now progress w ≡ returns (w1, opened s p ps)
      → request host cfg k (p ∷ ps) ≡ returns r
      → store_batch host cfg job page s (p ∷ ps) r (at (suc k)).now progress w1 ≡ returns w3
      → embed_rounds host cfg job page at (suc fuel) k progress w
        ≡ embed_rounds host cfg job page at fuel (suc (suc k)) (stored s p ps progress) w3
  unfolding embed_rounds
  round_again fuel k progress w w1 w3 s p ps r e given kept =
      rw (calm k w, e, given, calm (suc k) w1, kept, embed_rounds) refl

  pub embed_rounds-IsDone :
      (fuel k : ℕ) (progress : Progress) (w : World) (rest : List Chunk)
      → length rest < fuel
      → IsReady host cfg job page pg (at k).now progress w rest
      → (w' : World) × (embed_rounds host cfg job page at fuel k progress w
          ≡ some (w', progress.persisted + length rest))
        × IsDone job page w'
  embed_rounds-IsDone zero k progress w rest enough r = absurd (omega arith)
  embed_rounds-IsDone (suc fuel) k progress w [] enough r =
      let now = (at k).now in
      let (b, e) = batch_round host cfg job page pg now progress w [] r in
      let e' =
        e
        ∙ ap (λ (cs : List Chunk). returns (map pending_of cs))
            (part_of_nil (batch_limit cfg) b.taken b.left b.parts) in
      let (w', closed, over) =
        close_round host cfg job page pg now progress w (snapshot_of page w.chunks pg) r in
      let at_end = open_round host cfg job page pg now progress w [] [] r e' ∙ closed in
      (
        w',
        round_finished fuel k progress w w' at_end ∙ ap (λ (n : ℕ). some (w', n)) (omega arith),
        over,
      )
  embed_rounds-IsDone (suc fuel) k progress w (c ∷ cs) enough r =
      let now = (at k).now in
      let (b, e) = batch_round host cfg job page pg now progress w (c ∷ cs) r in
      let (q, qs, is_taken) =
        full_cons b.taken (b.some_taken refl (full_take (batch_limit cfg) c cs room)) in
      let rs = b.left ++ drop (batch_limit cfg) (c ∷ cs) in
      let whole : (c ∷ cs) ≡ (q ∷ qs) ++ rs =
        sym (take-append-drop (batch_limit cfg) (c ∷ cs))
        ∙ ap (λ (xs : List Chunk). xs ++ drop (batch_limit cfg) (c ∷ cs)) (sym b.parts)
        ∙ append_assoc b.taken b.left (drop (batch_limit cfg) (c ∷ cs))
        ∙ ap (λ (xs : List Chunk). xs ++ rs) is_taken in
      let small : length (q ∷ qs) ≤ batch_limit cfg = omega (
        arith,
        ap length b.parts,
        length-append b.taken b.left,
        ap length is_taken,
        length-take (batch_limit cfg) (c ∷ cs),
      ) in
      let r' = subst (IsReady host cfg job page pg now progress w) whole r in
      let (answer, given, valid) = request_round k q qs small in
      let (w3, kept, ready) =
        store_round host cfg job page pg now (at (suc k)).now (at (suc (suc k))).now progress w q qs
          rs answer r' (timely k) (timely (suc k)) valid in
      let e' = e ∙ ap (λ (xs : List Chunk). returns (map pending_of xs)) is_taken in
      let begun =
        open_round host cfg job page pg now progress w (c ∷ cs) (pending_of q ∷ map pending_of qs) r
          e'
        ∙ close_opened host cfg job page pg now progress w (snapshot_of page w.chunks pg)
            (pending_of q) (map pending_of qs) in
      let next =
        stored (snapshot_of page w.chunks pg) (pending_of q) (map pending_of qs) progress in
      let fewer = ap length whole ∙ length-append (q ∷ qs) rs in
      let (w', ran, over) = embed_rounds-IsDone fuel (suc (suc k)) next w3 rs (omega arith) ready in
      let counted : next.persisted + length rs ≡ progress.persisted + length (c ∷ cs) =
        omega (arith, length-map pending_of qs) in
      (
        w',
        round_again fuel k progress w (renew host cfg job page pg now w) w3
              (snapshot_of page w.chunks pg) (pending_of q) (map pending_of qs) answer begun given
              kept
            ∙ ran
            ∙ ap (λ (n : ℕ). some (w', n)) counted,
        over,
      )
