-- ===== src/Embed/Fence.antt =====
-- The claim of a job within a transaction of the worker: its renewal (`fence`) and the record of what
-- has been done (`record`).
use Prim.Native.String.{String}
use qbrain.Prelude.{
  ℕ, ◌+◌, ◌==◌, ltb, ◌&&◌, Bool, false, Option, none, some, Bytes, codes, if◌then◌else◌, text_eq,
}
use qbrain.Jobs.Table.{Status, Job, Brain, is_active, holds, update}
use qbrain.Jobs.Queue.{unlocked}
use qbrain.Embed.Tables.{World, lost_claim, Attempt, returns, throws}
use qbrain.Jobs.Replay.{text_or_empty}

abbrev pub lease_seconds : ℕ
lease_seconds = 180

-- `status='active' AND lock_token=? AND attempts=? AND lock_until>?`.
abbrev pub has_claim : Job → ℕ → Job → Bool
has_claim job now j =
    is_active j.status
    && holds (text_or_empty job.lock_token) j
    && j.attempts == job.attempts
    && elim j.lock_until [ none ↦ false | some until ↦ ltb now until ]

abbrev pub is_held : Job → ℕ → Job → Bool
is_held job now j = j.id == job.id && has_claim job now j

abbrev pub is_held_embed : Job → ℕ → Job → Bool
is_held_embed job now j = j.id == job.id && (text_eq j.type (codes "embed") && has_claim job now j)

-- An UPDATE that has to change one row.
abbrev pub one_change : World → Brain × ℕ → Attempt World
one_change w (b, changes) =
    if changes == 1 then returns (record w { brain = b }) else throws lost_claim

abbrev pub renewed : ℕ → Job → Job
renewed now j = record j { lock_until = some (now + lease_seconds); updated_at = now }

unfoldable pub fence : Job → ℕ → World → Attempt World
fence job now w = one_change w (update (is_held_embed job now) (renewed now) w.brain)

abbrev pub error_bytes : Option String → Option Bytes
error_bytes none = none
error_bytes (some e) = some (codes e)

-- The columns that `record` sets; the lock goes unless the job stays active.
abbrev pub recorded : Status → Bytes → Option String → ℕ → Job → Job
recorded status progress error now j =
    record (if is_active status
      then record j { status = status; updated_at = now }
      else unlocked status now j) { result_json = some progress; error_text = error_bytes error }

unfoldable pub record_progress : Job → Status → Bytes → Option String → ℕ → World → Attempt World
record_progress job status progress error now w =
    one_change w (update (is_held job now) (recorded status progress error now) w.brain)
