-- ===== src/Jobs/Messages/Sent.antt =====
-- What sending a message does, and what a later listing shows.
use mathlib.Core.List.{reverse, reverse_aux}
use qbrain.Prelude.{
  ℕ, zero, suc, ◌-◌, ◌≤◌, ◌≡◌, ◌≢◌, ◌⊎◌, refl, ap, ◌∙◌, Bool, true, false, some, List, [], ◌∷◌,
  ◌++◌, Bytes, select, take, ◌==◌, arith, Bool-cases, Option-cases, inl, inr,
}
use qbrain.Prelude.Int.{ℤ}
use qbrain.Jobs.Table.{Job, JobMessage, Brain, select_id}
use qbrain.Jobs.Text.{Json, is_valid_message_sender, canonical_message_payload}
use qbrain.Jobs.Queue.{success}
use qbrain.Jobs.Messages.{
  SendJobMessageResult, insert_message, send_job_message_checked, list_job_messages_checked,
  effective_limit,
}

select-snoc {ℓ} :
    {A : Type ℓ} (p : A → Bool) (xs : List A) (x : A)
    → p x ≡ true
    → select p (xs ++ x ∷ []) ≡ select p xs ++ x ∷ []
select-snoc p [] x h = rw h refl
select-snoc p (y ∷ xs) x h = elim (Bool-cases (p y)) [
  | inl hit ↦ rw hit (ap (◌∷◌ y) (select-snoc p xs x h))
  | inr miss ↦ rw miss (select-snoc p xs x h)
]

reverse-snoc {ℓ} :
    {A : Type ℓ} (xs : List A) (x : A) (done : List A)
    → reverse_aux (xs ++ x ∷ []) done ≡ x ∷ reverse_aux xs done
reverse-snoc [] x done = refl
reverse-snoc (y ∷ xs) x done = reverse-snoc xs x (y ∷ done)

-- The messages of a job, the newest first.
abbrev pub newest_first : ℕ → Brain → List JobMessage
newest_first job_id b = reverse (select (λ (m : JobMessage). m.job_id == job_id) b.messages)

-- What a sending that succeeds did: the message has the sender and the canonical payload, and stands
-- before the older ones in any listing of the job.
abbrev pub Sends : Json → ℕ → Bytes → Bytes → Brain → Brain × SendJobMessageResult → Type 0
Sends json job_id sender payload b (b', r) =
    (m : JobMessage) × (m.id ≡ r.message_id)
    × (m.sender ≡ sender)
    × (canonical_message_payload json payload ≡ some m.payload_json)
    × (b'.jobs ≡ b.jobs)
    × ((limit : ℤ)
        → (list_job_messages_checked job_id limit b').messages
          ≡ m ∷ take (effective_limit limit - 1) (newest_first job_id b))

self_equal : (n : ℕ) → (n == n) ≡ true
self_equal n = ground arith

take_first :
    (limit : ℤ) (m : JobMessage) (ms : List JobMessage)
    → take (effective_limit limit) (m ∷ ms) ≡ m ∷ take (effective_limit limit - 1) ms
take_first limit m ms = go (effective_limit limit) (omega arith)
  where
    go : (n : ℕ) → 1 ≤ n → take n (m ∷ ms) ≡ m ∷ take (n - 1) ms
    go zero h = absurd (omega arith)
    go (suc n) h = ap (λ k. m ∷ take k ms) (omega arith)

newest_first-sent :
    (job_id : ℕ) (b b' : Brain) (m : JobMessage)
    → m.job_id ≡ job_id
    → b'.messages ≡ b.messages ++ m ∷ []
    → newest_first job_id b' ≡ m ∷ newest_first job_id b
newest_first-sent job_id b b' m e h =
    rw
      (
        h,
        select-snoc (λ (i : JobMessage). i.job_id == job_id) b.messages m
            (rw e (self_equal job_id)),
      )
      (reverse-snoc (select (λ (i : JobMessage). i.job_id == job_id) b.messages) m [])

listed :
    (job_id : ℕ) (limit : ℤ) (b : Brain) (j : Job)
    → (job_id == 0) ≡ false
    → select_id job_id b ≡ some j
    → (list_job_messages_checked job_id limit b).messages
      ≡ take (effective_limit limit) (newest_first job_id b)
unfolding list_job_messages_checked
listed job_id limit b j good e = rw (good, e) refl

-- Sending a message either is refused, and then changes nothing and returns no id; or it succeeds:
-- the message has the sender and the canonical payload, the jobs are as before, and a listing of the
-- job with any limit begins with the message and goes on with the older ones, newest first.
pub send_job_message_checked-Sends :
    (json : Json) (job_id : ℕ) (sender payload : Bytes) (now : ℕ) (b : Brain)
    → ((send_job_message_checked json job_id sender payload now b).1.status ≢ success)
        × ((send_job_message_checked json job_id sender payload now b).0 ≡ b)
        × ((send_job_message_checked json job_id sender payload now b).1.message_id ≡ 0)
      ⊎ ((send_job_message_checked json job_id sender payload now b).1.status ≡ success)
        × Sends json job_id sender payload b
            (send_job_message_checked json job_id sender payload now b)
unfolding send_job_message_checked insert_message select_id
send_job_message_checked-Sends json job_id sender payload now b = elim (Bool-cases (job_id == 0)) [
  | inl bad ↦ rw bad (inl (λ e. cc, refl, refl))
  | inr good ↦ rw good (elim (Bool-cases (is_valid_message_sender sender)) [
    | inr invalid ↦ rw invalid (inl (λ e. cc, refl, refl))
    | inl valid ↦ rw valid (elim (Option-cases (canonical_message_payload json payload)) [
      | inl e ↦ rw e (inl (λ e. cc, refl, refl))
      | inr (canonical, e) ↦ rw e (elim (Option-cases (select_id job_id b)) [
        | inl e ↦ rw e (inl (λ e. cc, refl, refl))
        | inr (j, found) ↦
            rw (found, found)
              (inr (
                refl,
                (
                  message now canonical,
                  refl,
                  refl,
                  refl,
                  refl,
                  λ limit.
                      listed job_id limit (after now canonical) j good found
                      ∙ ap (take (effective_limit limit)) (
                          newest_first-sent job_id b (after now canonical) (message now canonical)
                            refl refl)
                      ∙ take_first limit (message now canonical) (newest_first job_id b),
                ),
              ))
      ])
    ])
  ])
]
  where
    message : ℕ → Bytes → JobMessage
    message t canonical = record {
      id = suc b.last_message;
      job_id = job_id;
      sender = sender;
      payload_json = canonical;
      created_at = t;
    }

    after : ℕ → Bytes → Brain
    after t canonical = record b {
      messages = b.messages ++ message t canonical ∷ [];
      last_message = suc b.last_message;
    }
