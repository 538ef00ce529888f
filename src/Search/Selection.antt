-- ===== src/Search/Selection.antt =====
-- What `ExactPageTopK` selects from the hits of a scan, in any order.
use qbrain.Prelude.{
  Elem, All-Elem, ℕ, suc, ◌-◌, ◌≡◌, refl, sym, ap, ◌∙◌, arith, true, false, ◌⊎◌, inl, inr, some,
  List, [], Bytes, All, take, min, Bool-cases,
}
use qbrain.Prelude.Int.{ℤ, pos, pos_part}
use qbrain.Search.{
  SearchHit, is_finite, is_positive, result_identity, better, improves, clamp_limit, new_topk,
  ranked, top_k,
}
use qbrain.Search.Ranking.{rank_all, find_page}
use qbrain.Search.Hits.{Consistent, hit_laws, hit_scores, improves-IsWeak}
use qbrain.Search.Order
use qbrain.Search.Threshold
use qbrain.Search.Best

-- The ranking of the pages of a list of hits, by the best hit of each.
abbrev pub ranking : List SearchHit → List SearchHit
ranking hits = rank_all result_identity better improves (λ h. h.score) hits []

clamp_limit-suc : (limit : ℤ) → (n : ℕ) × (clamp_limit limit ≡ suc n)
unfolding clamp_limit
clamp_limit-suc limit = elim (Bool-cases (is_positive limit)) [
  | inl p ↦ rw p (min (pos_part limit) 500 - 1, ground arith)
  | inr p ↦ rw p (0, refl)
]

-- Of hits whose page identity determines their source, slug and id, considered in any order, the
-- selection returns the first ones of their ranking, as many as the limit, which is brought between
-- 1 and 500, allows, numbered from 1.
pub top_k-ranking :
    (limit : ℤ) (home : Bytes → SearchHit) (hits : List SearchHit)
    → All (Consistent home) hits
    → top_k limit hits ≡ ranked 1 (take (clamp_limit limit) (ranking hits))
unfolding top_k new_topk
top_k-ranking limit home hits good =
    let (n, e) = clamp_limit-suc limit in
    let start = new_topk limit in
    let (r, s) =
      Threshold.consider_all-Retains result_identity better improves (λ h. h.score)
        (Consistent home) (hit_laws home) hit_scores hits n [] start good tt
        (e, refl, λ key. refl) in
    ap (ranked 1) (s.1 ∙ ap (λ m. take m (ranking hits)) (sym e))

-- The hits of a ranking in strict order, no two of the same page.
abbrev pub IsRanking : (Bytes → SearchHit) → List SearchHit → Type 0
IsRanking home = Order.IsRanking result_identity better improves (Consistent home) (hit_laws home)

-- The ranking has a hit of the same page that is not improved by this one.
abbrev pub BestOf : List SearchHit → SearchHit → Type 0
BestOf ranks h =
    (p : SearchHit) × (find_page result_identity (result_identity h) ranks ≡ some p)
    × (improves h p ≡ false)

-- Of hits whose page identity determines their source, slug and id, the ranking is strictly ordered
-- by score and then by source, slug and id, with one hit of a page; each of its hits is one of the
-- list with a finite score; and for each hit of the list with a finite score it has a hit of the
-- same page that the former does not improve by score or snippet.
pub ranking-IsBest :
    (home : Bytes → SearchHit) (hits : List SearchHit)
    → All (Consistent home) hits
    → IsRanking home (ranking hits)
      × All (λ h. (is_finite h.score ≡ false) ⊎ BestOf (ranking hits) h) hits
      × All (λ p. Elem p hits × (is_finite p.score ≡ true)) (ranking hits)
unfolding new_topk clamp_limit
ranking-IsBest home hits good = (
  (Threshold.consider_all-Retains result_identity better improves (λ h. h.score) (Consistent home)
      (hit_laws home) hit_scores hits 0 [] (new_topk (pos 1)) good tt (refl, refl, λ key. refl)).0,
  Best.rank_all-Best result_identity better improves (λ h. h.score) (Consistent home)
      (hit_laws home) improves-IsWeak hit_scores hits [] good tt,
  Best.rank_all-All result_identity better improves (λ h. h.score) (Consistent home) (hit_laws home)
      improves-IsWeak hit_scores (λ p. Elem p hits) hits [] (All-Elem hits) tt,
)
