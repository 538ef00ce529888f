-- ===== src/Search/Step.antt =====
-- One more hit in the ranking, seen in its first entries, while the page is not among these.
use mathlib.Core.Path.{subst}
use qbrain.Prelude.{
  ℕ, zero, suc, ◌≤◌, ◌≡◌, refl, sym, ap, ◌∙◌, ◌≢◌, arith, Bool, true, false, some, List, [], ◌∷◌,
  Bytes, length, take, length-take, Bool-cases, Option-cases, inl, inr,
}
use qbrain.Search.{Score, erase, init, last?}
use qbrain.Search.Ranking.{find_page, place, rank_among}
use qbrain.Search.Order.{Laws}
use qbrain.Search.Order
use qbrain.Search.Retained
use qbrain.Search.Index

module _ {A : Type 0} (page : A → Bytes) (better improves : A → A → Bool) (score : A → Score)
    (Good : A → Type 0) (laws : Laws page better improves Good) where
  abbrev IsRanking : List A → Type 0
  IsRanking = Order.IsRanking page better improves Good laws

  abbrev Absent : Bytes → List A → Type 0
  Absent = Order.Absent page better improves Good laws

  -- The ranking after one more hit.
  abbrev pub ranked_with : A → List A → List A
  ranked_with h xs = rank_among page better improves score h xs (find_page page (page h) xs)

  -- A hit found beyond the first entries comes after the worst of these.
  worst-better :
      (key : Bytes) (n : ℕ) (xs : List A) {w p : A}
      → IsRanking xs
      → Absent key (take (suc n) xs)
      → last? (take (suc n) xs) ≡ some w
      → find_page page key xs ≡ some p
      → better w p ≡ true
  unfolding last?
  worst-better key n [] r a l f = absurd (cc)
  worst-better key zero (x ∷ xs) {w} {p} (g, b, r) (ne, a) l f =
      let later : find_page page key xs ≡ some p =
        rw (Order.text_eq_ne page better improves Good laws (page x) key ne) at f in
      let c =
        Order.find_page-All page better improves Good laws
          (Order.Before page better improves Good laws x) key xs b later in
      subst (λ v. better v p ≡ true) (Order.some_injective l) c.0
  worst-better key (suc n) (x ∷ []) (g, b, r) (ne, a) l f =
      absurd
        (ground (arith, rw (Order.text_eq_ne page better improves Good laws (page x) key ne) at f))
  worst-better key (suc n) (x ∷ y ∷ xs) (g, b, r) (ne, a) l f =
      worst-better key n (y ∷ xs) r a l
        (rw (Order.text_eq_ne page better improves Good laws (page x) key ne) at f)

  take-whole : (n : ℕ) (xs : List A) → length xs ≤ n → take n xs ≡ xs
  take-whole zero [] le = refl
  take-whole (suc n) [] le = refl
  take-whole zero (x ∷ xs) le = absurd (omega arith)
  take-whole (suc n) (x ∷ xs) le = ap (◌∷◌ x) (take-whole n xs (omega arith))

  length-place : (h : A) (xs : List A) → length (place better h xs) ≡ suc (length xs)
  length-place h [] = refl
  length-place h (x ∷ xs) = elim (Bool-cases (better h x)) [
    | inl e ↦ rw e refl
    | inr e ↦ rw e (ap suc (length-place h xs))
  ]

  module _ (h : A) (good : Good h) (n : ℕ) (xs : List A) (r : IsRanking xs)
      (a : Absent (page h) (take (suc n) xs)) where
    -- A hit that beats the worst retained one displaces it.
    pub ranked-displaced :
        {w : A}
        → length (take (suc n) xs) ≡ suc n
        → last? (take (suc n) xs) ≡ some w
        → better h w ≡ true
        → take (suc n) (ranked_with h xs) ≡ place better h (init (take (suc n) xs))
    ranked-displaced {w} full l b = elim (Option-cases (find_page page (page h) xs)) [
      | inl e ↦ rw e (sym (Retained.displace-take page better improves Good laws h n xs full l b))
      | inr (p, e) ↦
          let hp =
            Order.better_trans page better improves Good laws h w p b
              (worst-better (page h) n xs r a l e) in
          let gp =
            Order.find_page-All page better improves Good laws Good (page h) xs
              (Order.IsRanking-All page better improves Good laws xs r) e in
          let same = sym (Order.find_page-page page better improves Good laws (page h) xs e) in
          let kept = Retained.erase-beyond page better improves Good laws (page h) (suc n) xs a in
          rw (e, laws.above h p good gp same hp)
            (sym (
              subst
                (λ t.
                  place better h (init t) ≡ take (suc n) (place better h (erase page (page h) xs)))
                kept
                (Retained.displace-take page better improves Good laws h n (erase page (page h) xs)
                  (rw kept full) (rw kept l) b)))
    ]

    -- A hit that does not beat it changes none of the first entries.
    pub ranked-kept :
        {w : A}
        → length (take (suc n) xs) ≡ suc n
        → last? (take (suc n) xs) ≡ some w
        → better h w ≡ false
        → take (suc n) (ranked_with h xs) ≡ take (suc n) xs
    ranked-kept {w} full l b = elim (Option-cases (find_page page (page h) xs)) [
      | inl e ↦ rw e (Retained.place-beyond page better improves Good laws h n xs r full l b)
      | inr (p, e) ↦ elim (Bool-cases (improves h p)) [
        | inl i ↦
            let kept = Retained.erase-beyond page better improves Good laws (page h) (suc n) xs a in
            rw (e, i)
              (Retained.place-beyond page better improves Good laws h n (erase page (page h) xs)
                  (Order.erase-IsRanking page better improves Good laws (page h) xs r)
                  (rw kept full) (rw kept l) b
                ∙ kept)
        | inr i ↦ rw (e, i) refl
      ]
    ]

    -- While there is room, the hit is added.
    pub ranked-added :
        length (take (suc n) xs) ≢ suc n
        → take (suc n) (ranked_with h xs) ≡ place better h (take (suc n) xs)
    ranked-added room =
        let few : length xs ≤ n = ground (arith, length-take (suc n) xs, room) in
        let all : take (suc n) xs ≡ xs = take-whole (suc n) xs (omega arith) in
        let none_found =
          Index.find-Absent page better improves Good laws (page h) xs
            (subst (Absent (page h)) all a) in
        rw (none_found, all)
          (take-whole (suc n) (place better h xs) (omega (arith, length-place h xs)))
