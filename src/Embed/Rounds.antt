-- ===== src/Embed/Rounds.antt =====
-- The loop of an execution ends: each batch raises the cursor, and the snapshot bounds it.
use mathlib.Core.Path.{subst}
use qbrain.Prelude.{
  ℕ, zero, suc, ◌+◌, ◌-◌, ◌<◌, ◌≤◌, ◌≡◌, refl, sym, ap, ◌∙◌, inl, inr, ◌&&◌, ◌==◌, ltb, Bool, true,
  false, not, Option, none, some, List, [], ◌∷◌, take, select, any, length, if◌then◌else◌, find?,
  Bool-cases, Option-cases, arith, All, All-map,
}
use qbrain.Jobs.Table.{Job, completed}
use qbrain.Embed.Tables.{
  World, Chunk, Config, returns, throws, stop, unless, PageSnapshot, in_page, >>=-elim,
  returns_injective, page_snapshot, same_snapshot, check_snapshot, max_chunk_id,
}
use qbrain.Embed.Batch.{
  Pending, pending_of, is_next, fill_batch, next_batch, json_text_bytes, size_minus, unembedded,
  http_max_request_bytes, batch_limit, too_large,
}
use qbrain.Embed.Execute.{
  Host, Moment, Progress, no_progress, Opened, finished, opened, expect_snapshot, close_batch,
  open_batch, request, store_batch, last_id, stored, embed_rounds, read_payload,
  execute_embedding_job,
}
use qbrain.Embed.Fence.{fence, record_progress}
use qbrain.Embed.Steps.{fence_keeps_content}
use qbrain.Embed.Traces.{Attempt-cases, target}
use qbrain.Embed.Changes.{unless-false}
use qbrain.Prelude.{All-take}

-- A row of a page is not above the highest.
select-bounded :
    (page after : ℕ) (cs : List Chunk)
    → All (λ c. (after < c.id) × (c.id ≤ max_chunk_id page cs)) (select (is_next page after) cs)
select-bounded page after [] = tt
select-bounded page after (c ∷ cs) =
    let rest =
      All-map {P = λ (d : Chunk). (after < d.id) × (d.id ≤ max_chunk_id page cs)}
        {Q = λ (d : Chunk). (after < d.id) × (d.id ≤ max_chunk_id page (c ∷ cs))}
        (λ d h. ground arith) (select (is_next page after) cs) (select-bounded page after cs) in
    elim (Bool-cases (is_next page after c)) [
      | inl h ↦
          let here : (after < c.id) × (c.id ≤ max_chunk_id page (c ∷ cs)) = ground arith in
          rw h (here, rest)
      | inr h ↦ rw h rest
    ]

-- The batch is made of the rows in their order.
fill_batch-All :
    (P : Pending → Type 0) (first : Bool) (bytes : ℕ) (cs : List Chunk) {ps : List Pending}
    → fill_batch first bytes cs ≡ returns ps
    → All (λ c. P (pending_of c)) cs
    → All P ps
unfolding fill_batch
fill_batch-All P first bytes [] h a = subst (All P) (returns_injective h) tt
fill_batch-All P first bytes (c ∷ cs) {ps} h (p, a) =
    >>=-elim (unless (ltb http_max_request_bytes (length c.text)) too_large) _ h λ _ _ h1.
      >>=-elim (json_text_bytes c.text) _ h1 λ n _ h2.
        let size = n + (if first then 0 else 1) in
        elim (Bool-cases (ltb (size_minus http_max_request_bytes bytes) size)) [
          | inl over ↦ elim (Bool-cases first) [
            | inl f ↦ let no : throws too_large ≡ returns ps = rw (over, f) at h2 in absurd (cc)
            | inr f ↦ subst (All P) (returns_injective (rw (over, f) at h2)) tt
          ]
          | inr fits ↦ >>=-elim (fill_batch false (bytes + size) cs) _ (rw fits at h2) λ qs e h3.
              subst (All P) (returns_injective h3) (p, fill_batch-All P false (bytes + size) cs e a)
        ]

last_id-bounded :
    (low high : ℕ) (p : Pending) (ps : List Pending)
    → All (λ q. (low < q.id) × (q.id ≤ high)) (p ∷ ps)
    → (low < last_id p ps) × (last_id p ps ≤ high)
last_id-bounded low high p [] (h, _) = h
last_id-bounded low high p (q ∷ qs) (h, hs) = last_id-bounded low high q qs hs

next_batch-bounded :
    (cfg : Config) (envelope page after : ℕ) (cs : List Chunk) (p : Pending) (ps : List Pending)
    → next_batch cfg envelope page after cs ≡ returns (p ∷ ps)
    → (after < last_id p ps) × (last_id p ps ≤ max_chunk_id page cs)
unfolding next_batch
next_batch-bounded cfg envelope page after cs p ps h =
    last_id-bounded after (max_chunk_id page cs) p ps (
      fill_batch-All (λ q. (after < q.id) × (q.id ≤ max_chunk_id page cs)) true envelope
        (take (batch_limit cfg) (select (is_next page after) cs)) h
        (All-take (λ c. (after < c.id) × (c.id ≤ max_chunk_id page cs)) (batch_limit cfg)
          (select (is_next page after) cs) (select-bounded page after cs)))

page_snapshot-max :
    (page : ℕ) (w : World) {s : PageSnapshot}
    → page_snapshot page w ≡ returns s
    → s.max_id ≡ max_chunk_id page w.chunks
unfolding page_snapshot
page_snapshot-max page w {s} h =
    elim (Option-cases (find? (λ p. p.id == page && not p.deleted) w.pages)) [
      | inl e ↦
          let no : throws (stop "deleted" "embedding target is deleted or missing" true)
              ≡ returns s =
            rw (e, page_snapshot) at h in
          absurd (cc)
      | inr (p, e) ↦
          sym (ap (λ (t : PageSnapshot). t.max_id) (returns_injective (rw (e, page_snapshot) at h)))
    ]

check_snapshot-max :
    (page : ℕ) (s : PageSnapshot) (w : World) {u : Unit {0}}
    → check_snapshot page s w ≡ returns u
    → s.max_id ≡ max_chunk_id page w.chunks
unfolding check_snapshot
check_snapshot-max page s w h = >>=-elim (page_snapshot page w) _ h λ found e h1.
    let same = unless-false (not (same_snapshot found s)) _ h1 in
    let top = page_snapshot-max page w e in unfold same_snapshot in ground arith

-- What the highest id is by the snapshot, or by the tables as long as there is none.
abbrev IsTop : Option PageSnapshot → ℕ → World → ℕ → Type 0
IsTop none page w top = max_chunk_id page w.chunks ≡ top
IsTop (some s) page w top = s.max_id ≡ top

expect_snapshot-max :
    (expected : Option PageSnapshot) (page : ℕ) (w : World) (top : ℕ) {s : PageSnapshot}
    → expect_snapshot expected page w ≡ returns s
    → IsTop expected page w top
    → (s.max_id ≡ top) × (max_chunk_id page w.chunks ≡ top)
expect_snapshot-max none page w top h i = (page_snapshot-max page w h ∙ i, i)
expect_snapshot-max (some s) page w top h i = >>=-elim (check_snapshot page s w) _ h λ _ e h1.
    let m = check_snapshot-max page s w e in
    (ap (λ (t : PageSnapshot). t.max_id) (sym (returns_injective h1)) ∙ i, sym m ∙ i)

IsTop-same :
    (expected : Option PageSnapshot) (page : ℕ) (w w' : World) (top : ℕ)
    → w'.chunks ≡ w.chunks
    → IsTop expected page w top
    → IsTop expected page w' top
IsTop-same none page w w' top e h = rw e h
IsTop-same (some s) page w w' top e h = h

module _ (host : Host) (cfg : Config) (job : Job) (page : ℕ) where
  close_batch-opened :
      (snapshot : PageSnapshot) (batch : List Pending) (now : ℕ) (progress : Progress) (w : World)
      {w' : World} {s : PageSnapshot} {p : Pending} {ps : List Pending}
      → close_batch host cfg job page snapshot batch now progress w ≡ returns (w', opened s p ps)
      → (batch ≡ p ∷ ps) × (snapshot ≡ s)
  unfolding close_batch
  close_batch-opened snapshot (q ∷ qs) now progress w h = (cc, cc)
  close_batch-opened snapshot [] now progress w {w'} {s} {p} {ps} h =
      let left = any (λ c. in_page page c && unembedded c) w.chunks in
      let final = host.progress_text progress.persisted progress.batches "completed" none in
      >>=-elim (unless left (stop "stale" "embedding work changed; retry explicitly" false)) _ h
        λ _ _ h1. >>=-elim (record_progress job completed final none now w) _ h1 λ v _ h2.
          let no : (v, finished) ≡ (w', opened s p ps) = returns_injective h2 in
          let apart : finished ≡ opened s p ps = ap (λ (o : World × Opened). o.1) no in absurd (cc)

  open_batch-progress :
      (now : ℕ) (progress : Progress) (w : World) (top : ℕ) {w' : World} {s : PageSnapshot}
      {p : Pending} {ps : List Pending}
      → open_batch host cfg job page now progress w ≡ returns (w', opened s p ps)
      → IsTop progress.expected page w top
      → (s.max_id ≡ top) × (progress.cursor < last_id p ps) × (last_id p ps ≤ top)
  unfolding open_batch
  open_batch-progress now progress w top {w'} {s} {p} {ps} h i =
      >>=-elim (fence job now w) _ h λ held f h1.
        >>=-elim (expect_snapshot progress.expected page held) _ h1 λ found e h2.
          >>=-elim (next_batch cfg (host.envelope_bytes cfg) page progress.cursor held.chunks) _ h2
            λ batch b h3.
              let same = (fence_keeps_content job now w f).0 in
              let (m, n) =
                expect_snapshot-max progress.expected page held top e
                  (IsTop-same progress.expected page w held top same i) in
              let (eb, es) = close_batch-opened found batch now progress held h3 in
              let (low, high) =
                next_batch-bounded cfg (host.envelope_bytes cfg) page progress.cursor held.chunks p
                  ps (b ∙ ap returns eb) in
              (ap (λ (t : PageSnapshot). t.max_id) (sym es) ∙ m, low, omega arith)

  embed_rounds-ends :
      (at : ℕ → Moment) (fuel k : ℕ) (progress : Progress) (w : World) (top : ℕ)
      → IsTop progress.expected page ((at k).others w) top
      → top - progress.cursor < fuel
      → (r : World × ℕ) × (embed_rounds host cfg job page at fuel k progress w ≡ some r)
  unfolding embed_rounds
  embed_rounds-ends at zero k progress w top i enough = absurd (omega arith)
  embed_rounds-ends at (suc fuel) k progress w top i enough =
      let w0 = (at k).others w in
      elim (Attempt-cases (open_batch host cfg job page (at k).now progress w0)) [
        | inr (e, failing) ↦ rw (failing, embed_rounds) (_, refl)
        | inl ((w1, finished), e) ↦ rw (e, embed_rounds) (_, refl)
        | inl ((w1, opened s p ps), e) ↦ elim (Attempt-cases (request host cfg k (p ∷ ps))) [
          | inr (x, failing) ↦ rw (e, failing, embed_rounds) (_, refl)
          | inl (answer, given) ↦
              let now = (at (suc k)).now in
              let w2 = (at (suc k)).others w1 in
              let batch = p ∷ ps in
              let kept = store_batch host cfg job page s batch answer now progress w2 in
              elim (Attempt-cases kept) [
                | inr (x, failing) ↦ rw (e, given, failing, embed_rounds) (_, refl)
                | inl (w3, done) ↦
                    let (m, low, high) = open_batch-progress (at k).now progress w0 top e i in
                    rw (e, given, done, embed_rounds)
                      (embed_rounds-ends at fuel (suc (suc k)) (stored s p ps progress) w3 top m
                        (omega arith))
              ]
        ]
      ]

-- An execution ends whatever the provider answers and others do: as many rounds are enough as the
-- highest id of a chunk of the page, when the first transaction begins, and one more.
pub execute_embedding_job_ends :
    (host : Host) (cfg : Config) (job : Job) (at : ℕ → Moment) (fuel : ℕ) (w : World)
    → max_chunk_id (target (read_payload host cfg job)) ((at 0).others w).chunks < fuel
    → (r : World × ℕ) × (execute_embedding_job host cfg job at fuel w ≡ some r)
unfolding execute_embedding_job
execute_embedding_job_ends host cfg job at fuel w enough =
    elim (Attempt-cases (read_payload host cfg job)) [
      | inr (e, bad) ↦ rw (bad, execute_embedding_job) (_, refl)
      | inl (page, good) ↦
          let first = (at 0).others w in
          let bound : max_chunk_id page first.chunks < fuel = rw good at enough in
          let (r, e) =
            embed_rounds-ends host cfg job page at fuel 0 no_progress w
              (max_chunk_id page first.chunks) refl (omega arith) in
          rw (good, e, execute_embedding_job) (_, refl)
    ]
