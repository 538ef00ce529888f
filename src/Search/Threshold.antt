-- ===== src/Search/Threshold.antt =====
-- The early exit below the worst retained score changes nothing, and the selection on a whole list.
use mathlib.Core.Path.{subst}
use qbrain.Prelude.{
  ℕ, suc, ◌≤◌, ◌<◌, ◌≡◌, refl, sym, ap, ◌∙◌, arith, Bool, true, false, some, List, [], ◌∷◌, Bytes,
  length, take, All, ◌==◌, Bool-cases, Option-cases, inl, inr,
}
use qbrain.Search.{
  Score, place_of, is_finite, TopK, last?, erase, consider_among, below_threshold, consider,
  consider_all,
}
use qbrain.Search.Ranking.{find_page, rank_hit, rank_all}
use qbrain.Search.Order.{Laws, ScoreLaws}
use qbrain.Search.Order
use qbrain.Search.Retained
use qbrain.Search.Step
use qbrain.Search.Refine

module _ {A : Type 0} (page : A → Bytes) (better improves : A → A → Bool) (score : A → Score)
    (Good : A → Type 0) (laws : Laws page better improves Good)
    (scores : ScoreLaws better improves score) where
  abbrev IsRanking : List A → Type 0
  IsRanking = Order.IsRanking page better improves Good laws

  abbrev Retains : ℕ → List A → TopK A → Type 0
  Retains = Refine.Retains page better improves score Good laws

  -- No score is below that of the last hit.
  least :
      (xs : List A) {w : A}
      → IsRanking xs
      → last? xs ≡ some w
      → All (λ x. place_of (score w) ≤ place_of (score x)) xs
  unfolding last?
  least [] r l = tt
  least (x ∷ []) r l = (
    subst (λ v. place_of (score v) ≤ place_of (score x)) (Order.some_injective l) (omega arith),
    tt,
  )
  least (x ∷ y ∷ xs) (g, b, r) l =
      let above =
        Retained.last?-All page better improves Good laws
          (Order.Before page better improves Good laws x) (y ∷ xs) b l in
      (scores.ranks x _ above.0, least (y ∷ xs) r l)

  module _ (h : A) (n : ℕ) (xs : List A) (r : IsRanking xs) (k : TopK A) (s : Retains n xs k) where
    -- What the test says.
    below-worst :
        below_threshold page better improves score k (place_of (score h)) ≡ true
        → (length k.ordered == k.limit ≡ true)
          × (w : A) × (last? k.ordered ≡ some w)
          × (place_of (score h) < place_of (score w))
    unfolding below_threshold
    below-worst e = elim (Option-cases (last? k.ordered)) [
      | inl l ↦ absurd (ground (arith, rw l at e))
      | inr (w, l) ↦ (ground (arith, rw l at e), w, l, ground (arith, rw l at e))
    ]

    below-unchanged :
        below_threshold page better improves score k (place_of (score h)) ≡ true
        → consider_among page better improves score h k (k.by_page (page h)) ≡ k
    below-unchanged e =
        let (full, w, l, lower) = below-worst e in
        let worst : last? xs ≡ some w = ap last? (sym s.1) ∙ l in
        elim (Option-cases (find_page page (page h) xs)) [
          | inl f ↦
              let behind : better h w ≡ false = elim (Bool-cases (better h w)) [
                | inl b ↦ absurd (omega (arith, scores.ranks h w b))
                | inr b ↦ b
              ] in
              rw (s.2 (page h), f, full, l, behind) refl
          | inr (p, f) ↦
              let above =
                Order.find_page-All page better improves Good laws
                  (λ x. place_of (score w) ≤ place_of (score x)) (page h) xs (least xs r worst) f in
              let worse : improves h p ≡ false = elim (Bool-cases (improves h p)) [
                | inl i ↦ absurd (omega (arith, scores.worse h p i, above))
                | inr i ↦ i
              ] in
              rw (s.2 (page h), f, worse) refl
        ]

  -- One hit: the selection of the ranking so far becomes that of the ranking with the hit.
  consider-Retains :
      (h : A) (n : ℕ) (xs : List A) (k : TopK A)
      → Good h
      → IsRanking xs
      → Retains (suc n) (take (suc n) xs) k
      → Retains
          (suc n)
          (take (suc n) (rank_hit page better improves score h xs))
          (consider page better improves score k h)
  unfolding consider rank_hit
  consider-Retains h n xs k good r s =
      let among = Refine.among page better improves score Good laws h good n xs r k s in
      let top-IsRanking = Retained.take-IsRanking page better improves Good laws (suc n) xs r in
      elim (Bool-cases (is_finite (score h))) [
        | inl f ↦
            elim (Bool-cases (below_threshold page better improves score k (place_of (score h)))) [
              | inl e ↦
                  rw (f, e)
                    (subst
                      (λ j.
                        Retains (suc n)
                          (take (suc n)
                            (Step.ranked_with page better improves score Good laws h xs))
                          j)
                      (below-unchanged h (suc n) (take (suc n) xs) top-IsRanking k s e) among)
              | inr e ↦ rw (f, e) among
            ]
        | inr f ↦ rw f s
      ]

  pub rank_hit-IsRanking :
      (h : A) (xs : List A)
      → Good h
      → IsRanking xs
      → IsRanking (rank_hit page better improves score h xs)
  unfolding rank_hit
  rank_hit-IsRanking h xs good r = elim (Bool-cases (is_finite (score h))) [
    | inr f ↦ rw f r
    | inl f ↦ elim (Option-cases (find_page page (page h) xs)) [
      | inl e ↦
          rw (f, e)
            (Order.place-IsRanking page better improves Good laws h xs good
              (Order.find_page-Absent page better improves Good laws (page h) xs e) r)
      | inr (p, e) ↦ elim (Bool-cases (improves h p)) [
        | inl i ↦
            rw (f, e, i)
              (Order.place-IsRanking page better improves Good laws h (erase page (page h) xs) good
                (Order.erase-Absent page better improves Good laws (page h) xs r)
                (Order.erase-IsRanking page better improves Good laws (page h) xs r))
        | inr i ↦ rw (f, e, i) r
      ]
    ]
  ]

  -- All hits, in any order: what is retained is the start of the ranking of all.
  pub consider_all-Retains :
      (hits : List A) (n : ℕ) (xs : List A) (k : TopK A)
      → All Good hits
      → IsRanking xs
      → Retains (suc n) (take (suc n) xs) k
      → IsRanking (rank_all page better improves score hits xs)
        × Retains
            (suc n)
            (take (suc n) (rank_all page better improves score hits xs))
            (consider_all page better improves score k hits)
  unfolding consider_all rank_all
  consider_all-Retains [] n xs k good r s = (r, s)
  consider_all-Retains (h ∷ hits) n xs k (g, good) r s =
      consider_all-Retains hits n (rank_hit page better improves score h xs)
        (consider page better improves score k h) good (rank_hit-IsRanking h xs g r)
        (consider-Retains h n xs k g r s)
