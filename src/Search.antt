-- ===== src/Search.antt =====
-- include/qbrain/search/result_identity.hpp and search/detail/exact_topk.hpp: the best hit of each
-- page, and the pages with the best of these.
pub mod Ranking
pub mod Order
pub mod Retained
pub mod Index
pub mod Step
pub mod Refine
pub mod Threshold
pub mod Best
pub mod Selection
pub mod Shown
pub mod Hits
pub mod Identity
mod Tests
use qbrain.Prelude.{
  ℕ, zero, suc, ◌-◌, Bool, true, false, not, ◌&&◌, ◌||◌, Option, none, some, List, [], ◌∷◌, ◌++◌,
  Bytes, codes, length, ◌==◌, ltb, leb, min, if◌then◌else◌, text_eq, text_less, to_string, is_empty,
  all,
}
use qbrain.Prelude.Int.{ℤ, pos, negsuc, pos_part, neg_part, leb_ℤ}

-- A double: the place of a finite one in their order, which equal ones share; `none` is no finite
-- number. The code compares finite doubles only. A `vector_rank` is the whole number that the double
-- holds, since the code writes only those.
abbrev pub Score : Type 0
Score = Option ℕ

pub record SearchHit : Type 0 where
  pub page_id : ℤ
  pub slug : Bytes
  pub title : Bytes
  pub snippet : Bytes
  pub score : Score
  pub fts_rank : Score
  pub vector_rank : ℕ
  pub rerank_score : Score
  pub reranker_delta : ℤ
  pub type : Bytes
  pub source_id : Bytes

abbrev pub place_of : Score → ℕ
place_of none = 0
place_of (some n) = n

abbrev pub is_finite : Score → Bool
is_finite none = false
is_finite (some n) = true

abbrev pub is_positive : ℤ → Bool
is_positive n = ltb 0 (pos_part n)

-- The identity from the fields that it reads. The lengths of texts are below 2^64.
unfoldable pub identity_of : ℤ → Bytes → Bytes → Bytes
unfolding to_string
identity_of page_id source_id slug =
    if is_positive page_id
    then codes "id:" ++ to_string (pos_part page_id)
    else codes "slug:" ++ (to_string (length source_id) ++ (codes ":" ++ (source_id ++ slug)))

abbrev pub result_identity : SearchHit → Bytes
result_identity hit = identity_of hit.page_id hit.source_id hit.slug

-- `std::tie(…) < std::tie(…)`.
unfoldable pub result_identity_less : SearchHit → SearchHit → Bool
unfolding text_less
result_identity_less a b =
    text_less a.source_id b.source_id
    || not (text_less b.source_id a.source_id)
      && (text_less a.slug b.slug
          || not (text_less b.slug a.slug) && not (leb_ℤ b.page_id a.page_id))

-- `Better`.
unfoldable pub better : SearchHit → SearchHit → Bool
unfolding result_identity_less
better a b =
    if place_of a.score == place_of b.score
    then result_identity_less a b
    else ltb (place_of b.score) (place_of a.score)

-- The condition under which a hit replaces an earlier one of its page, negated in the code.
unfoldable pub improves : SearchHit → SearchHit → Bool
unfolding text_less
improves hit previous = not (
    ltb (place_of hit.score) (place_of previous.score)
    || place_of hit.score == place_of previous.score
      && not (text_less hit.snippet previous.snippet))

-- The last element of `ordered_`, and the set without it.
unfoldable pub last? {ℓ} : {A : Type ℓ} → List A → Option A
last? [] = none
last? (x ∷ []) = some x
last? (x ∷ y ∷ xs) = last? (y ∷ xs)

unfoldable pub init {ℓ} : {A : Type ℓ} → List A → List A
init [] = []
init (x ∷ []) = []
init (x ∷ y ∷ xs) = x ∷ init (y ∷ xs)

-- The class over any hits: their page identity, and the comparisons.
module _ {A : Type 0} (better : A → A → Bool) where
  -- `ordered_.insert`, which leaves an equivalent element.
  unfoldable pub set_insert : A → List A → List A
  set_insert hit [] = hit ∷ []
  set_insert hit (x ∷ xs) =
      let rest = set_insert hit xs in
      if better hit x then hit ∷ x ∷ xs else if better x hit then x ∷ rest else x ∷ xs

  -- Was the element inserted?
  unfoldable pub is_new : A → List A → Bool
  is_new hit = all (λ x. better hit x || better x hit)

module _ {A : Type 0} (page : A → Bytes) where
  -- `ordered_.erase(position)`: a position is the identity of the page of its element.
  unfoldable pub erase : Bytes → List A → List A
  unfolding text_eq
  erase key [] = []
  erase key (x ∷ xs) = if text_eq (page x) key then xs else x ∷ erase key xs

-- An iterator of `by_page_` stands for the element that it points to.
pub record TopK (A : Type 0) : Type 0 where
  pub limit : ℕ
  pub ordered : List A
  pub by_page : Bytes → Option A

-- `std::clamp(limit, 1, 500)`.
unfoldable pub clamp_limit : ℤ → ℕ
clamp_limit limit = if not (is_positive limit) then 1 else min (pos_part limit) 500

unfoldable pub new_topk : {A : Type 0} → ℤ → TopK A
unfolding clamp_limit
new_topk limit = record { limit = clamp_limit limit; ordered = []; by_page = λ _. none }

-- The index with one key changed.
abbrev pub changed : {A : Type 0} → (Bytes → Option A) → Bytes → Option A → Bytes → Option A
changed index key value k = if text_eq key k then value else index k

module _ {A : Type 0} (page : A → Bytes) (better improves : A → A → Bool) (score : A → Score) where
  abbrev pub lower_than : Option A → ℕ → Bool
  lower_than none s = false
  lower_than (some worst) s = ltb s (place_of (score worst))

  unfoldable pub below_threshold : TopK A → ℕ → Bool
  unfolding last?
  below_threshold k s = length k.ordered == k.limit && lower_than (last? k.ordered) s

  -- The insertion at the end of `consider`: an element that is not new leaves the index.
  unfoldable pub insert_hit : A → List A → (Bytes → Option A) → TopK A → TopK A
  unfolding set_insert is_new
  insert_hit hit ordered by_page k = record k {
    ordered = set_insert better hit ordered;
    by_page = if is_new better hit ordered then changed by_page (page hit) (some hit) else by_page;
  }

  -- The case of a page that is not retained, with the worst element.
  abbrev pub displace : A → TopK A → Option A → TopK A
  displace hit k none = k
  displace hit k (some worst) =
      if better hit worst
      then insert_hit hit (init k.ordered) (changed k.by_page (page worst) none) k
      else k

  abbrev pub consider_among : A → TopK A → Option A → TopK A
  consider_among hit k (some previous) =
      if improves hit previous
      then insert_hit hit (erase page (page hit) k.ordered) (changed k.by_page (page hit) none) k
      else k
  consider_among hit k none =
      if length k.ordered == k.limit
      then displace hit k (last? k.ordered)
      else insert_hit hit k.ordered k.by_page k

  unfoldable pub consider : TopK A → A → TopK A
  unfolding insert_hit erase last? init below_threshold
  consider k hit =
      if not (is_finite (score hit)) || below_threshold k (place_of (score hit))
      then k
      else consider_among hit k (k.by_page (page hit))

  -- The hits in the order in which a scan delivers them.
  unfoldable pub consider_all : TopK A → List A → TopK A
  unfolding consider
  consider_all k [] = k
  consider_all k (hit ∷ hits) = consider_all (consider k hit) hits

-- `results`: the retained hits with their ranks from 1.
unfoldable pub ranked : ℕ → List SearchHit → List SearchHit
ranked rank [] = []
ranked rank (hit ∷ hits) = record hit { vector_rank = rank } ∷ ranked (suc rank) hits

-- `ExactPageTopK` on a list of hits.
unfoldable pub top_k : ℤ → List SearchHit → List SearchHit
unfolding consider_all ranked new_topk identity_of better improves
top_k limit hits =
    ranked 1
      (consider_all result_identity better improves (λ h. h.score) (new_topk limit) hits).ordered
