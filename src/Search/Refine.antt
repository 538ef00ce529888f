-- ===== src/Search/Refine.antt =====
-- The bounded selection is the start of the unbounded ranking.
use mathlib.Core.Path.{subst}
use qbrain.Prelude.{
  ℕ, suc, ◌≡◌, refl, sym, ap, ◌∙◌, ◌≢◌, arith, Bool, Option, none, some, List, [], ◌∷◌, Bytes,
  length, take, All, ◌==◌, Bool-cases, Option-cases, inl, inr,
}
use qbrain.Search.{Score, TopK, erase, init, last?, changed, insert_hit, displace, consider_among}
use qbrain.Search.Ranking.{find_page, place}
use qbrain.Search.Order.{Laws, ScoreLaws}
use qbrain.Search.Order
use qbrain.Search.Index
use qbrain.Search.Step
use qbrain.Search.Retained

last?-none : {A : Type 0} (xs : List A) → last? xs ≡ none → length xs ≡ 0
unfolding last?
last?-none [] l = refl
last?-none (x ∷ []) l = absurd (cc)
last?-none (x ∷ y ∷ xs) l = absurd (ground (arith, last?-none (y ∷ xs) l))

init-All : {A : Type 0} (P : A → Type 0) (xs : List A) → All P xs → All P (init xs)
unfolding init
init-All P [] a = tt
init-All P (x ∷ []) a = tt
init-All P (x ∷ y ∷ xs) (px, a) = (px, init-All P (y ∷ xs) a)

module _ {A : Type 0} (page : A → Bytes) (better improves : A → A → Bool) (score : A → Score)
    (Good : A → Type 0) (laws : Laws page better improves Good) where
  abbrev IsRanking : List A → Type 0
  IsRanking = Order.IsRanking page better improves Good laws

  abbrev Matches : (Bytes → Option A) → List A → Type 0
  Matches = Index.Matches page better improves Good laws

  -- The selection retains a list, under a limit, and its index matches the list.
  abbrev pub Retains : ℕ → List A → TopK A → Type 0
  Retains n xs k = (k.limit ≡ n) × (k.ordered ≡ xs) × Matches k.by_page xs

  -- The insertion, for any list equal to the one that is retained.
  inserted :
      (h : A) (n : ℕ) (us xs ys : List A) (index : Bytes → Option A) (k : TopK A)
      → us ≡ xs
      → Order.Absent page better improves Good laws (page h) xs
      → Matches index xs
      → k.limit ≡ n
      → place better h xs ≡ ys
      → Retains n ys (insert_hit page better improves score h us index k)
  inserted h n us xs ys index k same_list a m l e =
      let (same, ordered, matches) =
        Index.insert_hit-Matches page better improves Good laws score h xs index k a m in
      let done : Retains n (place better h xs)
          (insert_hit page better improves score h xs index k) =
        (same ∙ l, ordered, matches) in
      subst (λ vs. Retains n ys (insert_hit page better improves score h vs index k))
        (sym same_list)
        (subst (λ zs. Retains n zs (insert_hit page better improves score h xs index k)) e done)

  module _ (h : A) (good : Good h) (n : ℕ) (xs : List A) (r : IsRanking xs) (k : TopK A)
      (s : Retains (suc n) (take (suc n) xs) k) where
    abbrev top : List A
    top = take (suc n) xs

    abbrev next : List A
    next = take (suc n) (Step.ranked_with page better improves score Good laws h xs)

    top-IsRanking : IsRanking top
    top-IsRanking = Retained.take-IsRanking page better improves Good laws (suc n) xs r

    open_limit : k.limit ≡ suc n
    open_limit = s.0

    top-Absent :
        find_page page (page h) top ≡ none
        → Order.Absent page better improves Good laws (page h) top
    top-Absent f = Order.find_page-Absent page better improves Good laws (page h) top f

    -- What the selection retains, in terms of its own list.
    own : k.ordered ≡ top
    own = s.1

    keeps : next ≡ top → Retains (suc n) next k
    keeps e = subst (λ ys. Retains (suc n) ys k) (sym e) s

    -- The page is retained.
    among-some :
        {p : A}
        → find_page page (page h) top ≡ some p
        → Retains (suc n) next (consider_among page better improves score h k (some p))
    among-some {p} f =
        let found = Retained.find_page-take page better improves Good laws (page h) (suc n) xs f in
        elim (Bool-cases (improves h p)) [
          | inl i ↦
              let gp =
                Order.find_page-All page better improves Good laws Good (page h) xs
                  (Order.IsRanking-All page better improves Good laws xs r) found in
              let same =
                sym (Order.find_page-page page better improves Good laws (page h) xs found) in
              let behind = laws.not_below h p good gp same i in
              let replaced : place better h (erase page (page h) top) ≡ next =
                rw (found, i)
                  (Retained.replace-take page better improves Good laws h (suc n) xs r f behind) in
              rw i (
                inserted h (suc n) (erase page (page h) k.ordered) (erase page (page h) top) next
                  (changed k.by_page (page h) none) k (ap (erase page (page h)) own)
                  (Order.erase-Absent page better improves Good laws (page h) top top-IsRanking)
                  (Index.erase-Matches page better improves Good laws (page h) top k.by_page
                    top-IsRanking s.2)
                  open_limit replaced)
          | inr i ↦ rw i (keeps (rw (found, i) refl))
        ]

    -- The page is not retained, and the set is full.
    among-full :
        find_page page (page h) top ≡ none
        → length top ≡ suc n
        → Retains (suc n) next (displace page better improves score h k (last? k.ordered))
    among-full f full = elim (Option-cases (last? top)) [
      | inl l ↦ absurd (ground (arith, last?-none top l, full))
      | inr (w, l) ↦ elim (Bool-cases (better h w)) [
        | inl b ↦
            let displaced =
              Step.ranked-displaced page better improves score Good laws h good n xs r
                (top-Absent f) full l b in
            rw (ap last? own ∙ l, b)
              (inserted h (suc n) (init k.ordered) (init top) next (changed k.by_page (page w) none)
                k (ap init own) (init-All _ top (top-Absent f))
                (Index.init-Matches page better improves Good laws top k.by_page top-IsRanking l
                  s.2)
                open_limit (sym displaced))
        | inr b ↦
            rw (ap last? own ∙ l, b)
              (keeps (
                Step.ranked-kept page better improves score Good laws h good n xs r (top-Absent f)
                  full l b))
      ]
    ]

    among-none :
        find_page page (page h) top ≡ none
        → Retains (suc n) next (consider_among page better improves score h k none)
    among-none f = elim (Bool-cases (length k.ordered == k.limit)) [
      | inl e ↦ rw e (among-full f (ground (arith, ap length own, open_limit, e)))
      | inr e ↦
          let room : length top ≢ suc n =
            λ full. absurd (ground (arith, ap length own, open_limit, e)) in
          rw e (
            inserted h (suc n) k.ordered top next k.by_page k own (top-Absent f) s.2 open_limit (
              sym (
                Step.ranked-added page better improves score Good laws h good n xs r (top-Absent f)
                  room)))
    ]

    pub among :
        Retains (suc n) next (consider_among page better improves score h k (k.by_page (page h)))
    among = elim (Option-cases (find_page page (page h) top)) [
      | inl f ↦ rw (s.2 (page h), f) (among-none f)
      | inr (p, f) ↦ rw (s.2 (page h), f) (among-some f)
    ]
