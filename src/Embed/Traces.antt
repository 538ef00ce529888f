-- ===== src/Embed/Traces.antt =====
-- An execution consists of the fenced changes of its job, between what others do.
use mathlib.Core.Path.{subst}
use Prim.Native.String.{String}
use qbrain.Prelude.{
  ℕ, zero, suc, ◌≡◌, ◌≢◌, refl, ◌⊎◌, inl, inr, true, false, none, some, ◌∷◌, Option-cases,
}
use qbrain.Jobs.Table.{Status, active, completed, failed, cancelled, Job, is_active}
use qbrain.Embed.Tables.{
  World, Config, Attempt, returns, throws, Failure, stop, lost_claim, exception,
}
use qbrain.Embed.Execute.{
  Host, Moment, Progress, no_progress, finished, opened, open_batch, request, store_batch,
  fail_batch, or_same, settle, stored, embed_rounds, read_payload, execute_embedding_job,
}
use qbrain.Embed.Steps.{Trace, ended, passed, made}
use qbrain.Embed.Changes.{open_batch-Change, store_batch-Change, fail_batch-Change}

pub Attempt-cases :
    {A : Type 0} (m : Attempt A) → ((a : A) × (m ≡ returns a)) ⊎ ((e : Failure) × (m ≡ throws e))
Attempt-cases (returns a) = inl (a, refl)
Attempt-cases (throws e) = inr (e, refl)

module _ (host : Host) (job : Job) (page : ℕ) (at : ℕ → Moment) where
  failed-Trace :
      (s : Status) (outcome message : String) (k : ℕ) (progress : Progress) (w : World)
      → is_active s ≡ false
      → s ≢ completed
      → let w' = (at k).others w in
        Trace job page at k w
          (or_same w' (fail_batch host job s outcome message (at k).now progress w'))
  failed-Trace s outcome message k progress w over other =
      let w' = (at k).others w in
      elim (Attempt-cases (fail_batch host job s outcome message (at k).now progress w')) [
        | inl (v, e) ↦ rw e (
            made s
              (fail_batch-Change host job page s outcome message (at k).now progress w' over other
                e)
              ended)
        | inr (e, h) ↦ rw h (passed ended)
      ]

  settle-Trace :
      (e : Failure) (k : ℕ) (progress : Progress) (w : World)
      → Trace job page at k w (settle host job e (at k) progress w)
  unfolding settle
  settle-Trace lost_claim k progress w = ended
  settle-Trace exception k progress w =
      failed-Trace failed "execution_error" "embedding execution failed" k progress w refl (λ e. cc)
  settle-Trace (stop outcome message true) k progress w =
      failed-Trace cancelled outcome message k progress w refl (λ e. cc)
  settle-Trace (stop outcome message false) k progress w =
      failed-Trace failed outcome message k progress w refl (λ e. cc)

some_injective : {A : Type 0} {a b : A} → some a ≡ some b → a ≡ b
some_injective h = cc

module _ (host : Host) (cfg : Config) (job : Job) (page : ℕ) (at : ℕ → Moment) where
  embed_rounds-Trace :
      (fuel k : ℕ) (progress : Progress) (w : World) {r : World × ℕ}
      → embed_rounds host cfg job page at fuel k progress w ≡ some r
      → Trace job page at k w r.0
  unfolding embed_rounds
  embed_rounds-Trace zero k progress w h = absurd (cc)
  embed_rounds-Trace (suc fuel) k progress w {r} h =
      let w0 = (at k).others w in
      elim (Attempt-cases (open_batch host cfg job page (at k).now progress w0)) [
        | inr (e, failing) ↦
            subst (λ (r : World × ℕ). Trace job page at k w r.0)
              (some_injective (rw (failing, embed_rounds) at h))
              (passed (settle-Trace host job page at e (suc k) progress w0))
        | inl ((w1, finished), e) ↦
            subst (λ (r : World × ℕ). Trace job page at k w r.0)
              (some_injective (rw (e, embed_rounds) at h))
              (made completed (open_batch-Change host cfg job page (at k).now progress w0 e) ended)
        | inl ((w1, opened snapshot p ps), e) ↦
            made active (open_batch-Change host cfg job page (at k).now progress w0 e)
              (elim (Attempt-cases (request host cfg k (p ∷ ps))) [
                | inr (x, failing) ↦
                    subst (λ (r : World × ℕ). Trace job page at (suc k) w1 r.0)
                      (some_injective (rw (e, failing, embed_rounds) at h))
                      (settle-Trace host job page at x (suc k) progress w1)
                | inl (answer, given) ↦
                    let now = (at (suc k)).now in
                    let w2 = (at (suc k)).others w1 in
                    let batch = p ∷ ps in
                    elim (Attempt-cases
                      (store_batch host cfg job page snapshot batch answer now progress w2)) [
                        | inr (x, failing) ↦
                            subst (λ (r : World × ℕ). Trace job page at (suc k) w1 r.0)
                              (some_injective (rw (e, given, failing, embed_rounds) at h))
                              (passed (settle-Trace host job page at x (suc (suc k)) progress w2))
                        | inl (w3, kept) ↦
                            made active
                              (store_batch-Change host cfg job page snapshot batch answer now
                                progress w2 kept)
                              (embed_rounds-Trace fuel (suc (suc k)) (stored snapshot p ps progress)
                                w3 (rw (e, given, kept, embed_rounds) at h))
                      ]
              ])
      ]

-- The page of the payload, or 0.
abbrev pub target : Attempt ℕ → ℕ
target (returns page) = page
target (throws e) = 0

-- Whatever others do between its transactions, an execution changes the tables only by fenced
-- transactions. Each one finds exactly one embedding job that is active under the token, the attempt
-- and an unexpired lock of the claim; it writes only such rows of `jobs`, and their other columns
-- stay; it writes no page; it gives an embedding only to chunks of the page without one, and only
-- while the job stays active. The job becomes completed only when no chunk of its page is left
-- without an embedding.
pub execute_embedding_job-Trace :
    (host : Host) (cfg : Config) (job : Job) (at : ℕ → Moment) (fuel : ℕ) (w : World)
    {r : World × ℕ}
    → execute_embedding_job host cfg job at fuel w ≡ some r
    → Trace job (target (read_payload host cfg job)) at 0 w r.0
unfolding execute_embedding_job
execute_embedding_job-Trace host cfg job at fuel w {r} h =
    elim (Attempt-cases (read_payload host cfg job)) [
      | inr (e, bad) ↦ rw bad (
          subst (λ (r : World × ℕ). Trace job 0 at 0 w r.0)
            (some_injective (rw (bad, execute_embedding_job) at h))
            (settle-Trace host job 0 at e 0 no_progress w))
      | inl (page, good) ↦
          rw good (elim (Option-cases (embed_rounds host cfg job page at fuel 0 no_progress w)) [
            | inl out ↦
                let no : none ≡ some r = rw (good, out, execute_embedding_job) at h in absurd (cc)
            | inr (v, e) ↦
                subst (λ (r : World × ℕ). Trace job page at 0 w r.0)
                  (some_injective (rw (good, e, execute_embedding_job) at h))
                  (embed_rounds-Trace host cfg job page at fuel 0 no_progress w e)
          ])
    ]
