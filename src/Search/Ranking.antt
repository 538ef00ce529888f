-- ===== src/Search/Ranking.antt =====
-- The ranking that exact_topk.hpp stands for: all pages by their best hit, without a limit.
use qbrain.Prelude.{Bool, Option, none, some, List, [], ◌∷◌, Bytes, if◌then◌else◌, text_eq}
use qbrain.Search.{Score, is_finite, erase}

module _ {A : Type 0} (page : A → Bytes) where
  abbrev pub find_page : Bytes → List A → Option A
  find_page key [] = none
  find_page key (x ∷ xs) = if text_eq (page x) key then some x else find_page key xs

module _ {A : Type 0} (better : A → A → Bool) where
  -- Before the first hit that it is better than.
  abbrev pub place : A → List A → List A
  place h [] = h ∷ []
  place h (x ∷ xs) = if better h x then h ∷ x ∷ xs else x ∷ place h xs

module _ {A : Type 0} (page : A → Bytes) (better improves : A → A → Bool) (score : A → Score) where
  -- One more hit: its page keeps the better of the two.
  abbrev pub rank_among : A → List A → Option A → List A
  rank_among h ranks none = place better h ranks
  rank_among h ranks (some old) =
      if improves h old then place better h (erase page (page h) ranks) else ranks

  unfoldable pub rank_hit : A → List A → List A
  unfolding erase
  rank_hit h ranks =
      if is_finite (score h) then rank_among h ranks (find_page page (page h) ranks) else ranks

  -- The ranking of a list of hits, added to one.
  unfoldable pub rank_all : List A → List A → List A
  unfolding rank_hit
  rank_all [] ranks = ranks
  rank_all (h ∷ hits) ranks = rank_all hits (rank_hit h ranks)
