-- ===== src/Search/Shown.antt =====
-- What the results of `ExactPageTopK` show of each hit of a scan.
use mathlib.Core.Path.{subst}
use qbrain.Prelude.{
  Elem, All-Elem, ℕ, zero, suc, ◌≤◌, ◌<◌, ◌≡◌, refl, sym, ap, ◌∙◌, arith, true, false, ◌⊎◌, inl,
  inr, some, List, [], ◌∷◌, Bytes, All, All-map, take, All-take, length-take, ◌≢◌, min, max, length,
  Bool-cases, text_less, text_eq, ltb,
}
use qbrain.Prelude.Int.{ℤ, pos_part}
use qbrain.Search.{
  SearchHit, is_finite, place_of, result_identity, better, improves, clamp_limit, ranked, top_k,
}
use qbrain.Search.Ranking.{find_page}
use qbrain.Search.Hits.{Consistent, hit_laws, hit_scores}
use qbrain.Search.Order
use qbrain.Search.Selection.{ranking, IsRanking, BestOf, top_k-ranking, ranking-IsBest}

-- A higher score, or the same and no greater snippet.
abbrev pub AtLeast : SearchHit → SearchHit → Type 0
AtLeast p h =
    (place_of h.score < place_of p.score)
    ⊎ (place_of h.score ≡ place_of p.score) × (text_less h.snippet p.snippet ≡ false)

-- A result of the page of the hit is at least as good, or there are as many results as asked for, and
-- none has a lower score.
abbrev pub IsShown : ℕ → List SearchHit → SearchHit → Type 0
IsShown limit results h =
    ((p : SearchHit) × Elem p results × (result_identity p ≡ result_identity h) × AtLeast p h)
    ⊎ (length results ≡ limit) × All (λ r. place_of h.score ≤ place_of r.score) results

improves-AtLeast : (h p : SearchHit) → improves h p ≡ false → AtLeast p h
unfolding improves
improves-AtLeast h p e = elim (Bool-cases (ltb (place_of h.score) (place_of p.score))) [
  | inl below ↦ inl (ground arith)
  | inr other ↦ inr (ground arith, ground arith)
]

AtLeast-le : (h p : SearchHit) → AtLeast p h → place_of h.score ≤ place_of p.score
AtLeast-le h p (inl lt) = omega arith
AtLeast-le h p (inr (e, _)) = omega arith

-- The hit of a page among the first ones, or all of these have a score that is not below its.
find-take :
    (home : Bytes → SearchHit) (n : ℕ) (ranks : List SearchHit) (key : Bytes) (p : SearchHit)
    → IsRanking home ranks
    → find_page result_identity key ranks ≡ some p
    → (find_page result_identity key (take n ranks) ≡ some p)
      ⊎ (length (take n ranks) ≡ n) × All (λ r. place_of p.score ≤ place_of r.score) (take n ranks)
find-take home n [] key p h e = absurd (cc)
find-take home zero (x ∷ ranks) key p h e = inr (refl, tt)
find-take home (suc n) (x ∷ ranks) key p (good, before, hs) e =
    elim (Bool-cases (text_eq (result_identity x) key)) [
      | inl same ↦ rw same (inl (rw same at e))
      | inr other ↦
          let e' : find_page result_identity key ranks ≡ some p = rw other at e in
          let first =
            Order.find_page-All result_identity better improves (Consistent home) (hit_laws home)
              (Order.Before result_identity better improves (Consistent home) (hit_laws home) x) key
              ranks before e' in
          elim (find-take home n ranks key p hs e') [
            | inl found ↦ inl (rw other found)
            | inr (full, all_above) ↦ inr (ap suc full, (hit_scores.ranks x p first.0, all_above))
          ]
    ]

-- Numbering keeps the pages, the scores and the snippets.
find-ranked :
    (rank : ℕ) (hits : List SearchHit) (key : Bytes) (p : SearchHit)
    → find_page result_identity key hits ≡ some p
    → (i : ℕ) × (find_page result_identity key (ranked rank hits)
        ≡ some (record p { vector_rank = i }))
unfolding ranked
find-ranked rank [] key p e = absurd (cc)
find-ranked rank (x ∷ hits) key p e = elim (Bool-cases (text_eq (result_identity x) key)) [
  | inl same ↦
      let e' : some x ≡ some p = rw same at e in
      (
        rank,
        rw same (
            ap (λ (q : SearchHit). some (record q { vector_rank = rank }))
              (Order.some_injective e')),
      )
  | inr other ↦ let (i, f) = find-ranked (suc rank) hits key p (rw other at e) in (i, rw other f)
]

length-ranked : (rank : ℕ) (hits : List SearchHit) → length (ranked rank hits) ≡ length hits
unfolding ranked
length-ranked rank [] = refl
length-ranked rank (x ∷ hits) = ap suc (length-ranked (suc rank) hits)

ranked-All :
    (P : SearchHit → Type 0) (rank : ℕ) (hits : List SearchHit)
    → ((h : SearchHit) (i : ℕ) → P h → P (record h { vector_rank = i }))
    → All P hits
    → All P (ranked rank hits)
unfolding ranked
ranked-All P rank [] keep h = tt
ranked-All P rank (x ∷ hits) keep (h, hs) = (keep x rank h, ranked-All P (suc rank) hits keep hs)

-- No score is below a later one, and no two hits are of the same page.
abbrev pub Descending : List SearchHit → Type 0
Descending [] = Unit
Descending (x ∷ xs) =
    All (λ y. (place_of y.score ≤ place_of x.score) × (result_identity y ≢ result_identity x)) xs
    × Descending xs

ranking-Descending :
    (home : Bytes → SearchHit) (n : ℕ) (ranks : List SearchHit)
    → IsRanking home ranks
    → Descending (take n ranks)
ranking-Descending home zero [] h = tt
ranking-Descending home zero (x ∷ ranks) h = tt
ranking-Descending home (suc n) [] h = tt
ranking-Descending home (suc n) (x ∷ ranks) (good, before, hs) = (
  All-take _ n ranks (All-map (λ y b. (hit_scores.ranks x y b.0, b.1)) ranks before),
  ranking-Descending home n ranks hs,
)

ranked-Descending :
    (rank : ℕ) (hits : List SearchHit) → Descending hits → Descending (ranked rank hits)
unfolding ranked
ranked-Descending rank [] h = tt
ranked-Descending rank (x ∷ hits) (h, hs) =
    (ranked-All _ (suc rank) hits (λ y i b. b) h, ranked-Descending (suc rank) hits hs)

-- The result is a hit of the scan with a finite score, but for its number.
abbrev pub FromScan : List SearchHit → SearchHit → Type 0
FromScan hits r =
    (h : SearchHit) × Elem h hits
    × (is_finite h.score ≡ true)
    × (r ≡ record h { vector_rank = r.vector_rank })

-- The results of a scan, no more than a limit: in order of their scores, one of a page, from the scan;
-- and they show each of its hits with a finite score.
pub record Shows (limit : ℕ) (hits results : List SearchHit) : Type 0 where
  pub sorted : Descending results
  pub few : length results ≤ limit
  pub found : All (FromScan hits) results
  pub shown : All (λ h. (is_finite h.score ≡ false) ⊎ IsShown limit results h) hits

-- One hit of the scan, shown among the first ones of the ranking.
first-IsShown :
    (home : Bytes → SearchHit) (n : ℕ) (ranks : List SearchHit) (h : SearchHit)
    → IsRanking home ranks
    → BestOf ranks h
    → IsShown n (ranked 1 (take n ranks)) h
first-IsShown home n ranks h good (p, e, kept) =
    let at_least = improves-AtLeast h p kept in
    elim (find-take home n ranks (result_identity h) p good e) [
      | inl found ↦
          let (i, f) = find-ranked 1 (take n ranks) (result_identity h) p found in
          let results = ranked 1 (take n ranks) in
          let elem =
            Order.find_page-All result_identity better improves (Consistent home) (hit_laws home)
              (λ r. Elem r results) (result_identity h) results (All-Elem results) f in
          let page =
            Order.find_page-page result_identity better improves (Consistent home) (hit_laws home)
              (result_identity h) ranks e in
          inl (record p { vector_rank = i }, elem, page, at_least)
      | inr (full, above) ↦
          let le = AtLeast-le h p at_least in
          inr (
            length-ranked 1 (take n ranks) ∙ full,
            ranked-All (λ r. place_of h.score ≤ place_of r.score) 1 (take n ranks) (λ r i b. b)
                (All-map (λ r b. omega arith) (take n ranks) above),
          )
    ]

ranking-Shows :
    (home : Bytes → SearchHit) (n : ℕ) (hits : List SearchHit)
    → All (Consistent home) hits
    → Shows n hits (ranked 1 (take n (ranking hits)))
ranking-Shows home n hits good =
    let (order, best, from) = ranking-IsBest home hits good in
    let ranks = ranking hits in
    record {
      sorted = ranked-Descending 1 (take n ranks) (ranking-Descending home n ranks order);
      few = omega (arith, length-ranked 1 (take n ranks), length-take n ranks);
      found =
          ranked-All (FromScan hits) 1 (take n ranks)
            (λ r i (h, el, fin, e).
              (h, el, fin, ap (λ (q : SearchHit). record q { vector_rank = i }) e))
            (All-take _ n ranks (All-map (λ p b. (p, b.0, b.1, refl)) ranks from));
      shown =
          All-map
            (λ h b. elim b [
              | inl not_finite ↦ inl not_finite
              | inr best_of ↦ inr (first-IsShown home n ranks h order best_of)
            ])
            hits best;
    }

clamp_limit_lem : (limit : ℤ) → clamp_limit limit ≡ max 1 (min (pos_part limit) 500)
unfolding clamp_limit
clamp_limit_lem limit = ground arith

-- Of hits whose page identity determines their source, slug and id, considered in any order, the
-- selection returns no more than the limit, which is brought between 1 and 500: in descending order
-- of scores, one hit of a page, each a hit of the scan with a finite score, but for its number. Of
-- each hit with a finite score it has one of the same page that has a higher score, or the same score
-- and no greater snippet; or it has as many results as the limit, and none has a lower score.
pub top_k-Shows :
    (limit : ℤ) (home : Bytes → SearchHit) (hits : List SearchHit)
    → All (Consistent home) hits
    → Shows (max 1 (min (pos_part limit) 500)) hits (top_k limit hits)
top_k-Shows limit home hits good =
    subst (Shows (max 1 (min (pos_part limit) 500)) hits)
      (ap (λ n. ranked 1 (take n (ranking hits))) (sym (clamp_limit_lem limit))
        ∙ sym (top_k-ranking limit home hits good))
      (ranking-Shows home (max 1 (min (pos_part limit) 500)) hits good)
