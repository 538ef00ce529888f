-- ===== src/Embed/Worked.antt =====
-- A worker that claims an embedding job and runs it to its end.
use mathlib.Core.Path.{subst}
use qbrain.Prelude.{
  ℕ, suc, ◌+◌, ◌<◌, ◌≡◌, refl, sym, ap, ◌∙◌, ◌&&◌, true, false, not, Option, some, Bytes, codes,
  count, find?, is_empty, select, text_eq, text_eq_refl, All, arith, ◌==◌,
}
use qbrain.Prelude.Int.{pos}
use qbrain.Jobs.Table.{Job, Brain, select_id}
use qbrain.Jobs.Queue.{claim_job}
use qbrain.Jobs.Invariant.{IsBrain}
use qbrain.Jobs.Preserved.{claim_job-IsBrain}
use qbrain.Jobs.Claim.{Claims, claim_job-Claims, claimed_row}
use qbrain.Embed.Tables.{World, Page, returns}
use qbrain.Embed.Requests.{Fits}
use qbrain.Embed.Stored.{is_pending, Rising}
use qbrain.Embed.Execute.{Moment, read_payload, execute_embedding_job}
use qbrain.Embed.Fence.{is_held_embed, lease_seconds}
use qbrain.Embed.Ready.{IsDone}
use qbrain.Embed.Completes.{execute_embedding_job_completes}
use qbrain.Embed.Calm.{Answers}
use qbrain.Embed.Drain.{Services, Turn, worker_types, claim_in, process_claimed, process_one}

-- A job as its claim hands it out stands in the table, held for the time of the lock.
claimed-held :
    (token : Bytes) (now later : ℕ) (k : Job)
    → later < now + 60
    → text_eq k.type (codes "embed") ≡ true
    → let j = claimed_row token (pos 60000) now k in is_held_embed j later j ≡ true
claimed-held token now later k soon embed = ground (arith, text_eq_refl token)

module _ (token : Bytes) (m : Moment) (w w1 : World) (j : Job) (v : IsBrain (m.others w).brain)
    (full : is_empty token ≡ false)
    (claim : claim_in token (pos 60000) (codes "default") worker_types m w ≡ (w1, some j)) where
  -- The claimed job as it stands in the table.
  claim_in-claimed :
      IsBrain w1.brain
      × (select_id j.id w1.brain ≡ some j)
      × ((k : Job) × (j ≡ claimed_row token (pos 60000) m.now k))
  unfolding claim_in
  claim_in-claimed =
      let b = (m.others w).brain in
      let r = claim_job token (pos 60000) (codes "default") worker_types m.now b in
      let got : r.1 ≡ some j = ap (λ (p : World × Option Job). p.1) claim in
      let tables : r.0 ≡ w1.brain = ap (λ (p : World × Option Job). p.0.brain) claim in
      let ok = claim_job-IsBrain token (pos 60000) (codes "default") worker_types m.now b v in
      let pair : r ≡ (r.0, some j) = λ i. (r.0, got i) in
      let (k, _, row, found, _) =
        subst (Claims token (pos 60000) (codes "default") worker_types m.now b) pair
          (claim_job-Claims token (pos 60000) (codes "default") worker_types m.now b v full) in
      (
        subst IsBrain tables ok,
        subst (λ (b' : Brain). select_id j.id b' ≡ some j) tables found,
        (k, row),
      )

  -- It is held by its own claim until the lock runs out.
  claim_in-held :
      (later : ℕ)
      → later < m.now + 60
      → text_eq j.type (codes "embed") ≡ true
      → is_held_embed j later j ≡ true
  claim_in-held later soon embed =
      let (_, _, claimed) = claim_in-claimed in
      let (k, row) = claimed in
      let embed' = subst (λ (x : Job). text_eq x.type (codes "embed") ≡ true) row embed in
      subst (λ (x : Job). is_held_embed x later x ≡ true) (sym row)
        (claimed-held token m.now later k soon embed')

process_claimed_embed :
    (s : Services) (t : Turn) (w w' : World) (j : Job) (n : ℕ)
    → text_eq j.type (codes "embed") ≡ true
    → execute_embedding_job s.host t.cfg j t.at t.fuel w ≡ some (w', n)
    → process_claimed s t (w, some j) ≡ some (w', some true)
unfolding process_claimed
process_claimed_embed s t w w' j n embed ran = rw (embed, ran) refl

-- A worker on well-formed tables whose claim hands out an embedding job processes it to its end,
-- under the conditions of `execute_embedding_job_completes` and if it begins within the minute of
-- the claim: no chunk of the page is left without an embedding, and the row of the job is completed.
pub process_one_completes :
    (s : Services) (t : Turn) (w w1 : World) (j : Job) (page : ℕ) (pg : Page)
    → IsBrain (t.claim.others w).brain
    → is_empty t.token ≡ false
    → claim_in t.token (pos 60000) (codes "default") worker_types t.claim w ≡ (w1, some j)
    → text_eq j.type (codes "embed") ≡ true
    → (t.at 0).now < t.claim.now + 60
    → read_payload s.host t.cfg j ≡ returns page
    → ((k : ℕ) (v : World) → (t.at k).others v ≡ v)
    → ((k : ℕ) → (t.at (suc k)).now < (t.at k).now + lease_seconds)
    → Answers s.host t.cfg
    → find? (λ p. p.id == page && not p.deleted) w1.pages ≡ some pg
    → Rising 0 w1.chunks
    → All (Fits (s.host.envelope_bytes t.cfg)) (select (is_pending page) w1.chunks)
    → count (is_pending page) w1.chunks < t.fuel
    → (w' : World) × (process_one s t w ≡ some (w', some true)) × IsDone j page w'
unfolding process_one
process_one_completes s t w w1 j page pg v full claim embed soon payload calm timely answers there
      rising fits enough =
    let (ok, found, _) = claim_in-claimed t.token t.claim w w1 j v full claim in
    let held = claim_in-held t.token t.claim w w1 j v full claim (t.at 0).now soon embed in
    let (w', ran, over) =
      execute_embedding_job_completes s.host t.cfg j t.at t.fuel w1 page pg j payload calm timely
        answers ok found held there rising fits enough in
    (w', ap (process_claimed s t) claim ∙ process_claimed_embed s t w1 w' j _ embed ran, over)
