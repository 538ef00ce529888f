-- ===== src/Jobs/Ended.antt =====
-- When the groups of the children by status show that every child has ended.
use qbrain.Prelude.{
  ℕ, zero, suc, ◌≡◌, refl, Bool, true, false, ◌&&◌, some, List, [], ◌∷◌, ◌==◌, Bytes, Bool-cases,
  arith, all, inl, inr, count, All, text_eq, text_eq_refl, get_elem?,
}
use mathlib.Core.Path.{subst}
use qbrain.Jobs.Table.{
  Status, active, paused, waiting, completed, cancelled, dead, failed, waiting_children, Job, Brain,
  status_text, has_parent, is_terminal,
}
use qbrain.Jobs.Text.{Json}
use qbrain.Jobs.Tree.{statuses, count_by_status, compute_aggregate_json}

count_zero {ℓ} :
    {A : Type ℓ} (p : A → Bool) (xs : List A) → count p xs ≡ 0 → All (λ x. p x ≡ false) xs
count_zero p [] h = tt
count_zero p (x ∷ xs) h = elim (Bool-cases (p x)) [
  | inl hit ↦ absurd (ground arith)
  | inr miss ↦ (miss, count_zero p xs (ground arith))
]

-- The count of a status that is not final is 0 if the groups are final.
no_group :
    (parent : ℕ) (b : Brain) (ss : List Status) (i : ℕ) (s : Status)
    → get_elem? ss i ≡ some s
    → is_terminal s ≡ false
    → all (λ (c : Status × ℕ). is_terminal c.0) (count_by_status parent ss b) ≡ true
    → count (λ j. has_parent parent j && text_eq (status_text j.status) (status_text s)) b.jobs ≡ 0
unfolding count_by_status
no_group parent b [] i s e open_status h = absurd (cc)
no_group parent b (t ∷ ss) zero s e open_status h =
    elim (Bool-cases (
      count (λ j. has_parent parent j && text_eq (status_text j.status) (status_text t)) b.jobs
      == 0)) [
        | inl none_left ↦
            let same : t ≡ s = ground arith in
            subst
              (λ u.
                count (λ j. has_parent parent j && text_eq (status_text j.status) (status_text u))
                  b.jobs
                ≡ 0)
              same (ground arith)
        | inr some_left ↦ let same : t ≡ s = ground arith in absurd (ground arith)
      ]
no_group parent b (t ∷ ss) (suc i) s e open_status h =
    ground (arith, no_group parent b ss i s e open_status)

-- Every child of the parent has ended.
abbrev pub ChildrenEnded : ℕ → Brain → Type 0
ChildrenEnded parent b = All (λ j. has_parent parent j ≡ true → is_terminal j.status ≡ true) b.jobs

-- A status that has a group is none of the four that are not final.
ended_of_status :
    (child : Bool) (s : Status)
    → (child && text_eq (status_text s) (status_text active)) ≡ false
    → (child && text_eq (status_text s) (status_text paused)) ≡ false
    → (child && text_eq (status_text s) (status_text waiting)) ≡ false
    → (child && text_eq (status_text s) (status_text waiting_children)) ≡ false
    → child ≡ true
    → is_terminal s ≡ true
ended_of_status child active a p w c h = absurd (ground (arith, text_eq_refl (status_text active)))
ended_of_status child paused a p w c h = absurd (ground (arith, text_eq_refl (status_text paused)))
ended_of_status child waiting a p w c h =
    absurd (ground (arith, text_eq_refl (status_text waiting)))
ended_of_status child waiting_children a p w c h =
    absurd (ground (arith, text_eq_refl (status_text waiting_children)))
ended_of_status child completed a p w c h = refl
ended_of_status child failed a p w c h = refl
ended_of_status child cancelled a p w c h = refl
ended_of_status child dead a p w c h = refl

ended_of_groups :
    (parent : ℕ) (b : Brain) (js : List Job)
    → All
        (λ j. (has_parent parent j && text_eq (status_text j.status) (status_text active)) ≡ false)
        js
    → All
        (λ j. (has_parent parent j && text_eq (status_text j.status) (status_text paused)) ≡ false)
        js
    → All
        (λ j. (has_parent parent j && text_eq (status_text j.status) (status_text waiting)) ≡ false)
        js
    → All
        (λ j.
          (has_parent parent j && text_eq (status_text j.status) (status_text waiting_children))
          ≡ false)
        js
    → All (λ j. has_parent parent j ≡ true → is_terminal j.status ≡ true) js
ended_of_groups parent b [] _ _ _ _ = tt
ended_of_groups parent b (j ∷ js) (a, ha) (p, hp) (w, hw) (c, hc) = (
  ended_of_status (has_parent parent j) j.status a p w c,
  ended_of_groups parent b js ha hp hw hc,
)

pub compute_aggregate_json-ChildrenEnded :
    (json : Json) (parent : ℕ) (text : Bytes) (counted b listed : Brain)
    → compute_aggregate_json json parent counted b listed ≡ some text
    → ChildrenEnded parent b
unfolding compute_aggregate_json
compute_aggregate_json-ChildrenEnded json parent text counted b listed e =
    let final : all (λ (c : Status × ℕ). is_terminal c.0) (count_by_status parent statuses b)
        ≡ true =
      ground arith in
    let group =
      λ (i : ℕ) (s : Status) (at : get_elem? statuses i ≡ some s) (o : is_terminal s ≡ false).
        count_zero _ b.jobs (no_group parent b statuses i s at o final) in
    ended_of_groups parent b b.jobs (group 0 active refl refl) (group 5 paused refl refl)
      (group 6 waiting refl refl) (group 7 waiting_children refl refl)
