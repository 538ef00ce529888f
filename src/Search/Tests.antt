-- ===== src/Search/Tests.antt =====
-- The selection on small lists of hits.
use qbrain.Prelude.{
  Elem, ℕ, ◌≡◌, refl, arith, true, false, ◌⊎◌, none, some, List, [], ◌∷◌, Bytes, codes, All, take,
  map, if◌then◌else◌, text_eq,
}
use Prim.Native.String.{String}
use qbrain.Prelude.Int.{pos, negsuc}
use qbrain.Search.{
  SearchHit, Score, is_finite, is_positive, identity_of, clamp_limit, top_k, ranked,
}
use qbrain.Search.Identity.{result_identity-injective}
use qbrain.Search.Shown.{Shows, top_k-Shows}
use qbrain.Search.Selection.{ranking, IsRanking, BestOf, top_k-ranking, ranking-IsBest}
use qbrain.Search.Hits.{Consistent}

abbrev hit : ℕ → String → String → Score → SearchHit
hit id slug snippet score = record {
  page_id = pos id;
  slug = codes slug;
  title = codes slug;
  snippet = codes snippet;
  score = score;
  fts_rank = none;
  vector_rank = 0;
  rerank_score = none;
  reranker_delta = pos 0;
  type = [];
  source_id = codes "default";
}

-- Four pages, one of them with two chunks, and a score that is no number.
abbrev hits : List SearchHit
hits =
    hit 1 "a" "x" (some 5)
    ∷ hit 2 "b" "x" (some 7)
    ∷ hit 3 "c" "x" (some 6)
    ∷ hit 1 "a" "y" (some 9)
    ∷ hit 4 "d" "x" none
    ∷ []

-- The pages of the scan by their identity.
abbrev home : Bytes → SearchHit
home key =
    if text_eq key (codes "id:1")
    then hit 1 "a" "" none
    else if text_eq key (codes "id:2")
    then hit 2 "b" "" none
    else if text_eq key (codes "id:3")
    then hit 3 "c" "" none
    else hit 4 "d" "" none

hits-Consistent : All (Consistent home) hits
unfolding identity_of text_eq
hits-Consistent = (
  (refl, refl, refl),
  ((refl, refl, refl), ((refl, refl, refl), ((refl, refl, refl), ((refl, refl, refl), tt)))),
)

top_k-ranking_example : top_k (pos 2) hits ≡ ranked 1 (take (clamp_limit (pos 2)) (ranking hits))
top_k-ranking_example = top_k-ranking (pos 2) home hits hits-Consistent

top_k-Shows_example : Shows 2 hits (top_k (pos 2) hits)
top_k-Shows_example = top_k-Shows (pos 2) home hits hits-Consistent

ranked_pages :
    IsRanking home (ranking hits)
    × All (λ h. (is_finite h.score ≡ false) ⊎ BestOf (ranking hits) h) hits
    × All (λ p. Elem p hits × (is_finite p.score ≡ true)) (ranking hits)
ranked_pages = ranking-IsBest home hits hits-Consistent

top_k_tests :
    (map (λ h. h.page_id) (top_k (pos 2) hits) ≡ pos 1 ∷ pos 2 ∷ [])
    × (map (λ h. h.vector_rank) (top_k (pos 2) hits) ≡ 1 ∷ 2 ∷ [])
    × (map (λ h. h.snippet) (top_k (negsuc 4) hits) ≡ codes "y" ∷ [])
unfolding top_k
top_k_tests = (refl, refl, refl)

result_identity-injective_example :
    ((is_positive (pos 7) ≡ true) × (pos 7 ≡ pos 7))
    ⊎ ((is_positive (pos 7) ≡ false)
        × (is_positive (pos 7) ≡ false)
        × (codes "default" ≡ codes "default")
        × (codes "a" ≡ codes "b"))
unfolding identity_of
result_identity-injective_example =
    result_identity-injective (hit 7 "a" "" none) (hit 7 "b" "" none) (omega arith) (omega arith)
      (omega arith) (omega arith) refl
