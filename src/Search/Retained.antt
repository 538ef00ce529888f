-- ===== src/Search/Retained.antt =====
-- The first entries of a changed ranking, from the first entries of the ranking.
use qbrain.Search.Order.{Laws}
use mathlib.Core.Path.{subst}
use qbrain.Prelude.{
  ℕ, zero, suc, ◌≡◌, refl, sym, ap, arith, Bool, true, false, some, List, [], ◌∷◌, Bytes, length,
  take, All, All-map, text_eq, Bool-cases, inl, inr,
}
use qbrain.Search.{erase, init, last?}
use qbrain.Search.Ranking.{find_page, place}
use qbrain.Search.Order

module _ {A : Type 0} (page : A → Bytes) (better improves : A → A → Bool) (Good : A → Type 0)
    (laws : Laws page better improves Good) where
  open laws use {asym, cuts}

  abbrev IsRanking : List A → Type 0
  IsRanking = Order.IsRanking page better improves Good laws

  abbrev Absent : Bytes → List A → Type 0
  Absent = Order.Absent page better improves Good laws

  take-All {κ} : (P : A → Type κ) (n : ℕ) (xs : List A) → All P xs → All P (take n xs)
  take-All P zero xs a = tt
  take-All P (suc n) [] a = tt
  take-All P (suc n) (x ∷ xs) (px, a) = (px, take-All P n xs a)

  pub take-IsRanking : (n : ℕ) (xs : List A) → IsRanking xs → IsRanking (take n xs)
  take-IsRanking zero xs r = tt
  take-IsRanking (suc n) [] r = tt
  take-IsRanking (suc n) (x ∷ xs) (g, b, r) = (g, take-All _ n xs b, take-IsRanking n xs r)

  -- A page among the first entries is found there.
  pub find_page-take :
      (key : Bytes) (n : ℕ) (xs : List A) {p : A}
      → find_page page key (take n xs) ≡ some p
      → find_page page key xs ≡ some p
  find_page-take key zero xs h = absurd (cc)
  find_page-take key (suc n) [] h = absurd (cc)
  find_page-take key (suc n) (x ∷ xs) h = elim (Bool-cases (text_eq (page x) key)) [
    | inl e ↦ rw e (rw e at h)
    | inr e ↦ rw e (find_page-take key n xs (rw e at h))
  ]

  erase-take :
      (key : Bytes) (n : ℕ) (xs : List A) {p : A}
      → find_page page key (take (suc n) xs) ≡ some p
      → erase page key (take (suc n) xs) ≡ take n (erase page key xs)
  unfolding erase
  erase-take key n [] h = absurd (cc)
  erase-take key zero (x ∷ xs) h = elim (Bool-cases (text_eq (page x) key)) [
    | inl e ↦ rw e refl
    | inr e ↦ absurd (ground (arith, rw e at h))
  ]
  erase-take key (suc n) (x ∷ xs) h = elim (Bool-cases (text_eq (page x) key)) [
    | inl e ↦ rw e refl
    | inr e ↦ rw e (ap (◌∷◌ x) (erase-take key n xs (rw e at h)))
  ]

  erase-cons :
      (x : A) (key : Bytes) (n : ℕ) (xs : List A) {p : A}
      → find_page page key (take n xs) ≡ some p
      → x ∷ erase page key (take n xs) ≡ take n (x ∷ erase page key xs)
  erase-cons x key zero xs h = absurd (cc)
  erase-cons x key (suc n) xs h = ap (◌∷◌ x) (erase-take key n xs h)

  place-first : (h : A) (xs : List A) → All (λ x. better h x ≡ true) xs → place better h xs ≡ h ∷ xs
  place-first h [] a = refl
  place-first h (x ∷ xs) (e, a) = rw e refl

  -- A better hit of a retained page.
  pub replace-take :
      (h : A) (n : ℕ) (xs : List A) {p : A}
      → IsRanking xs
      → find_page page (page h) (take n xs) ≡ some p
      → better p h ≡ false
      → place better h (erase page (page h) (take n xs))
        ≡ take n (place better h (erase page (page h) xs))
  unfolding erase
  replace-take h zero xs r f b = absurd (cc)
  replace-take h (suc n) [] r f b = absurd (cc)
  replace-take h (suc n) (x ∷ xs) (g, bx, r) f b = elim (Bool-cases (text_eq (page x) (page h))) [
    | inl e ↦
        let same = subst (λ q. better q h ≡ false) (sym (Order.some_injective (rw e at f))) b in
        let first =
          All-map {P = Order.Before page better improves Good laws x}
            (λ y c. cuts x h y c.0 same) in
        rw
          (
            e,
            place-first h xs (first xs bx),
            place-first h (take n xs) (first (take n xs) (take-All _ n xs bx)),
          )
          refl
    | inr e ↦ elim (Bool-cases (better h x)) [
      | inl first ↦ rw (e, first) (ap (◌∷◌ h) (erase-cons x (page h) n xs (rw e at f)))
      | inr later ↦ rw (e, later) (ap (◌∷◌ x) (replace-take h n xs r (rw e at f) b))
    ]
  ]

  -- A page beyond the first entries is erased without a change of these.
  pub erase-beyond :
      (key : Bytes) (n : ℕ) (xs : List A)
      → Absent key (take n xs)
      → take n (erase page key xs) ≡ take n xs
  unfolding erase
  erase-beyond key zero xs a = refl
  erase-beyond key (suc n) [] a = refl
  erase-beyond key (suc n) (x ∷ xs) (ne, a) =
      rw (Order.text_eq_ne page better improves Good laws (page x) key ne)
        (ap (◌∷◌ x) (erase-beyond key n xs a))

  pub last?-All {κ} : (P : A → Type κ) (xs : List A) {w : A} → All P xs → last? xs ≡ some w → P w
  unfolding last?
  last?-All P [] a l = absurd (cc)
  last?-All P (x ∷ []) (px, a) l = subst P (Order.some_injective l) px
  last?-All P (x ∷ y ∷ xs) (px, a) l = last?-All P (y ∷ xs) a l

  init-take :
      (n : ℕ) (xs : List A) → length (take (suc n) xs) ≡ suc n → init (take (suc n) xs) ≡ take n xs
  unfolding init
  init-take n [] e = absurd (omega arith)
  init-take zero (x ∷ xs) e = refl
  init-take (suc n) (x ∷ []) e = absurd (omega arith)
  init-take (suc n) (x ∷ y ∷ xs) e = ap (◌∷◌ x) (init-take n (y ∷ xs) (omega arith))

  -- A hit better than the worst of the first entries displaces it.
  pub displace-take :
      (h : A) (n : ℕ) (xs : List A) {w : A}
      → length (take (suc n) xs) ≡ suc n
      → last? (take (suc n) xs) ≡ some w
      → better h w ≡ true
      → place better h (init (take (suc n) xs)) ≡ take (suc n) (place better h xs)
  unfolding init last?
  displace-take h n [] e l b = absurd (omega arith)
  displace-take h zero (x ∷ xs) e l b =
      let front = subst (λ q. better h q ≡ true) (sym (Order.some_injective l)) b in rw front refl
  displace-take h (suc n) (x ∷ []) e l b = absurd (omega arith)
  displace-take h (suc n) (x ∷ y ∷ xs) e l b = elim (Bool-cases (better h x)) [
    | inl first ↦ rw first (ap (λ t. h ∷ x ∷ t) (init-take n (y ∷ xs) (omega arith)))
    | inr later ↦ rw later (ap (◌∷◌ x) (displace-take h n (y ∷ xs) (omega arith) l b))
  ]

  -- A hit that is not better than the worst of the first entries leaves them.
  pub place-beyond :
      (h : A) (n : ℕ) (xs : List A) {w : A}
      → IsRanking xs
      → length (take (suc n) xs) ≡ suc n
      → last? (take (suc n) xs) ≡ some w
      → better h w ≡ false
      → take (suc n) (place better h xs) ≡ take (suc n) xs
  unfolding last?
  place-beyond h n [] r e l b = absurd (omega arith)
  place-beyond h zero (x ∷ xs) r e l b =
      let behind = subst (λ q. better h q ≡ false) (sym (Order.some_injective l)) b in
      rw behind refl
  place-beyond h (suc n) (x ∷ []) r e l b = absurd (omega arith)
  place-beyond h (suc n) (x ∷ y ∷ xs) (g, bx, r) e l b = elim (Bool-cases (better h x)) [
    | inl first ↦
        let above = last?-All _ (take (suc n) (y ∷ xs)) (take-All _ (suc n) (y ∷ xs) bx) l in
        absurd
          (ground (arith, Order.better_trans page better improves Good laws h x _ first above.0))
    | inr later ↦ rw later (ap (◌∷◌ x) (place-beyond h n (y ∷ xs) r (omega arith) l b))
  ]
